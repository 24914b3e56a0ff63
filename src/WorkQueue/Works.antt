-- ===== src/WorkQueue/Works.antt =====
-- Each work runs once, and frees its block.
use embedded_basecamp.Prelude.{
  ℕ, ◌+◌, ◌≡◌, refl, sym, ap, ◌∙◌, subst, Bool, true, false, List, [], ◌∷◌, ◌++◌, ltb, ◌==◌,
  if◌then◌else◌, arith, mem, mem-append, Distinct,
}
use embedded_basecamp.WorkQueue.{
  Work, Place, starting, loading, refused, loaded, removed, crashed, Module, set, Step,
  create_workqueue, no_workqueue, queue_work, no_memory, not_queued, all_queued, my_wq_function,
  runs_away, cleanup_module, Reach, here, next,
}

-- How often an id stands in a list.
abbrev pub times : ℕ → List ℕ → ℕ
times a [] = 0
times a (x ∷ xs) = (if x == a then 1 else 0) + times a xs

times-append : (a : ℕ) (xs ys : List ℕ) → times a (xs ++ ys) ≡ times a xs + times a ys
times-append a [] ys = omega arith
times-append a (x ∷ xs) ys = omega (arith, times-append a xs ys)

ids : List Work → List ℕ
ids [] = []
ids (w ∷ ws) = w.id ∷ ids ws

owned : List Work → List ℕ
owned [] = []
owned (w ∷ ws) = w.block ∷ owned ws

ids-append : (xs ys : List Work) → ids (xs ++ ys) ≡ ids xs ++ ids ys
unfolding ids
ids-append [] ys = refl
ids-append (x ∷ xs) ys = ap (λ z. x.id ∷ z) (ids-append xs ys)

owned-append : (xs ys : List Work) → owned (xs ++ ys) ≡ owned xs ++ owned ys
unfolding owned
owned-append [] ys = refl
owned-append (x ∷ xs) ys = ap (λ z. x.block ∷ z) (owned-append xs ys)

-- With n works made: each id below n is printed or queued, once; the blocks held are those of the
-- queue, one for each work.
record IsSound (n : ℕ) (s : Module) : Type 0 where
  once : (a : ℕ) → times a s.printed + times a (ids s.queue) ≡ (if ltb a n then 1 else 0)
  held : (b : ℕ) → s.blocks b ≡ mem b (owned s.queue)
  apart : Distinct (owned s.queue)

append_fresh : (b : ℕ) (xs : List ℕ) → Distinct xs → mem b xs ≡ false → Distinct (xs ++ b ∷ [])
append_fresh b [] d h = (refl, tt)
append_fresh b (x ∷ xs) d h = ground (arith, mem-append x xs (b ∷ []), append_fresh b xs d.1)

queue_work-IsSound :
    (n b : ℕ) (s : Module)
    → IsSound n s
    → s.blocks b ≡ false
    → IsSound (n + 1) (record s {
      place = loading (n + 1);
      queue = s.queue ++ record { block = b; id = n } ∷ [];
      blocks = set s.blocks b true;
    })
unfolding ids owned
queue_work-IsSound n b s v free =
    let w : Work = record { block = b; id = n } in
    record {
      once = λ a.
          rw (ids-append s.queue (w ∷ []), times-append a (ids s.queue) (n ∷ []))
            (ground (arith, v.once a));
      held = λ c.
          rw (owned-append s.queue (w ∷ []), mem-append c (owned s.queue) (b ∷ []))
            (ground (arith, v.held c));
      apart =
          rw (owned-append s.queue (w ∷ []))
            (append_fresh b (owned s.queue) v.apart (sym (v.held b) ∙ free));
    }

mem-middle :
    (a b : ℕ) (xs ys : List ℕ)
    → Distinct (xs ++ b ∷ ys)
    → mem a (xs ++ ys) ≡ (if a == b then false else mem a (xs ++ b ∷ ys))
mem-middle a b [] ys d = ground arith
mem-middle a b (x ∷ xs) ys d =
    ground (arith, mem-middle a b xs ys d.1, mem-append b xs (b ∷ ys), mem-append x xs (b ∷ ys))

middle-Distinct : (b : ℕ) (xs ys : List ℕ) → Distinct (xs ++ b ∷ ys) → Distinct (xs ++ ys)
middle-Distinct b [] ys d = d.1
middle-Distinct b (x ∷ xs) ys d =
    ground (arith, middle-Distinct b xs ys d.1, mem-middle x b xs ys d.1)

ran : Module → List Work → Work → List Work → Module
ran s before w after = record s {
  queue = before ++ after;
  printed = s.printed ++ w.id ∷ [];
  blocks = set s.blocks w.block false;
}

ran-IsSound :
    (n : ℕ) (s : Module) (before after : List Work) (w : Work)
    → IsSound n s
    → s.queue ≡ before ++ w ∷ after
    → IsSound n (ran s before w after)
unfolding ids owned ran
ran-IsSound n s before after w v e =
    let old_ids : ids s.queue ≡ ids before ++ w.id ∷ ids after =
      ap ids e ∙ ids-append before (w ∷ after) in
    let old : owned s.queue ≡ owned before ++ w.block ∷ owned after =
      ap owned e ∙ owned-append before (w ∷ after) in
    let apart : Distinct (owned before ++ w.block ∷ owned after) = rw (← old) v.apart in
    record {
      once = λ a.
          let sum = times-append a (ids before) (w.id ∷ ids after) in
          rw
            (
              ids-append before after,
              times-append a (ids before) (ids after),
              times-append a s.printed (w.id ∷ []),
            )
            (ground (arith, v.once a, ap (times a) old_ids, sum));
      held = λ b.
          rw (owned-append before after, mem-middle b w.block (owned before) (owned after) apart)
            (ground (arith, v.held b, ap (mem b) old));
      apart =
          rw (owned-append before after)
            (middle-Distinct w.block (owned before) (owned after) apart);
    }

-- What is known of the module at each place, as long as its start has not failed.
At : ℕ → Place → Module → Type 0
At works starting s = IsSound 0 s × (s.my_wq ≡ false)
At works (loading n) s = IsSound n s
At works (refused code) s = Unit
At works loaded s = IsSound works s
At works removed s = IsSound works s × (s.queue ≡ []) × (s.my_wq ≡ false)
At works crashed s = Unit

ran-At :
    (works : ℕ) (p : Place) (s : Module) (before after : List Work) (w : Work)
    → At works p s
    → s.queue ≡ before ++ w ∷ after
    → At works p (ran s before w after)
unfolding At ran
ran-At works starting s before after w a e = (ran-IsSound 0 s before after w a.0 e, a.1)
ran-At works (loading n) s before after w a e = ran-IsSound n s before after w a e
ran-At works (refused code) s before after w a e = tt
ran-At works loaded s before after w a e = ran-IsSound works s before after w a e
ran-At works removed s before after w a e = absurd (no_work before (sym e ∙ a.1))
  where
    no_work : (xs : List Work) → xs ++ w ∷ after ≡ [] → ⊥
    no_work [] h = cc
    no_work (x ∷ xs) h = cc
ran-At works crashed s before after w a e = tt

moved :
    (n : ℕ) (s : Module) (p : Place) (q : Bool)
    → IsSound n s
    → IsSound n (record s { place = p; my_wq = q })
moved n s p q v = record { once = v.once; held = v.held; apart = v.apart }

Step-At : (works : ℕ) (s t : Module) → Step works s t → At works s.place s → At works t.place t
unfolding At ran
Step-At works _ _ (create_workqueue s e) a =
    moved 0 s (loading 0) true (subst (λ p. At works p s) e a).0
Step-At works _ _ (no_workqueue s e) a = tt
Step-At works _ _ (queue_work s n b e h free) a =
    queue_work-IsSound n b s (subst (λ p. At works p s) e a) free
Step-At works _ _ (no_memory s n e h) a = tt
Step-At works _ _ (not_queued s n b e h free) a = tt
Step-At works _ _ (all_queued s e) a = moved works s loaded s.my_wq (subst (λ p. At works p s) e a)
Step-At works _ _ (my_wq_function s before after w there e) a =
    ran-At works s.place s before after w a e
Step-At works _ _ (runs_away s before after w code e q) a = tt
Step-At works _ _ (cleanup_module s e q) a =
    (moved works s removed false (subst (λ p. At works p s) e a), q, refl)

Reach-At : (works : ℕ) (s : Module) → Reach works s → At works s.place s
unfolding At ids owned
Reach-At works _ here = (record { once = λ a. ground arith; held = λ b. refl; apart = tt }, refl)
Reach-At works _ (next {s} {t} r step) = Step-At works s t step (Reach-At works s r)

-- When the module has been loaded and removed, in whatever order its works ran and whatever the
-- kernel answered: each id below `works` was printed exactly once and no other id, no block is held,
-- and neither the queue nor a work is left.
pub Reach-removed :
    (works : ℕ) (s : Module)
    → Reach works s
    → s.place ≡ removed
    → ((a : ℕ) → times a s.printed ≡ (if ltb a works then 1 else 0))
      × ((b : ℕ) → s.blocks b ≡ false)
      × (s.queue ≡ [])
      × (s.my_wq ≡ false)
unfolding At ids owned
Reach-removed works s r e =
    let (v, empty, gone) = subst (λ p. At works p s) e (Reach-At works s r) in
    (
      λ a. ground (arith, v.once a, ap (λ ws. times a (ids ws)) empty),
      λ b. v.held b ∙ ap (λ ws. mem b (owned ws)) empty,
      empty,
      gone,
    )
