-- ===== src/Workers/End.antt =====
-- Each run of the worker threads ends, with everything cleaned up.
use embedded_basecamp.Prelude.{
  ℕ, zero, suc, ◌+◌, ◌-◌, ◌≤◌, ◌<◌, ◌≡◌, refl, true, false, some, ◌==◌, arith, ltb, Bool-cases, inl,
  inr, ◌⊎◌, subst, ◌∙◌, ap,
}
use embedded_basecamp.Prelude.Int.{ℤ, pos, negsuc, pos_part, ltb_ℤ, ◌≤ℤ◌, fits_int}
use embedded_basecamp.Workers.{
  Task, minus_ℤ, subtract, Thread, waiting_for_start, failed, running, completed, Main, starting,
  waiting, cleaned, System, put, Step, start, start_failed, all_started, round, complete, wait,
  cleanup_items, Reach, here, next,
}
use embedded_basecamp.Workers.Steps.{idle, done, in_range, lost, Agrees, Reach-Agrees}

-- A round with a positive delay leaves less time, and does not overflow.
subtract-less :
    (r d n : ℤ)
    → ltb_ℤ (pos 0) r ≡ true
    → pos 1 ≤ℤ d
    → subtract r d ≡ some n
    → suc (pos_part n) ≤ pos_part r
unfolding subtract
subtract-less (pos a) (pos b) n h k run = ground arith
subtract-less (pos a) (negsuc b) n h k run = absurd (omega arith)
subtract-less (negsuc a) d n h k run = absurd (ground arith)

subtract-fits : (r d n : ℤ) → subtract r d ≡ some n → fits_int n ≡ true
unfolding subtract
subtract-fits r d n run = ground arith

subtract-some :
    (r d : ℤ)
    → ltb_ℤ (pos 0) r ≡ true
    → fits_int r ≡ true
    → pos 1 ≤ℤ d
    → fits_int d ≡ true
    → (n : ℤ) × (subtract r d ≡ some n)
unfolding subtract
subtract-some (pos a) (pos b) h f k g = (minus_ℤ (pos a) (pos b), ground arith)
subtract-some (pos a) (negsuc b) h f k g = absurd (omega arith)
subtract-some (negsuc a) d h f k g = absurd (ground arith)

completed_of : (t : Thread) → done t ≡ true → t ≡ completed
completed_of waiting_for_start h = absurd (ground arith)
completed_of failed h = absurd (ground arith)
completed_of (running r) h = absurd (ground arith)
completed_of completed h = refl

-- What is left of a thread, and of test_module.
abbrev pub weight : Task → Thread → ℕ
weight t waiting_for_start = pos_part t.total_time + 2
weight t failed = 0
weight t (running r) = pos_part r + 1
weight t completed = 0

abbrev pub main_weight : ℕ → Main → ℕ
main_weight count (starting k) = (count - k) + count + 3
main_weight count (waiting k) = (count - k) + 1
main_weight count cleaned = 0

abbrev pub weights : (ℕ → Task) → ℕ → (ℕ → Thread) → ℕ
weights tasks zero f = 0
weights tasks (suc n) f = weights tasks n f + weight (tasks n) (f n)

weights-put_beyond :
    (tasks : ℕ → Task) (n k : ℕ) (f : ℕ → Thread) (t : Thread)
    → n ≤ k
    → weights tasks n (put f k t) ≡ weights tasks n f
weights-put_beyond tasks zero k f t h = refl
weights-put_beyond tasks (suc n) k f t h =
    let other : (n == k) ≡ false = ground arith in
    rw (other, weights-put_beyond tasks n k f t (omega arith)) refl

weights-put :
    (tasks : ℕ → Task) (n k : ℕ) (f : ℕ → Thread) (t : Thread)
    → k < n
    → weights tasks n (put f k t) + weight (tasks k) (f k) ≡ weights tasks n f + weight (tasks k) t
weights-put tasks zero k f t h = absurd (omega arith)
weights-put tasks (suc n) k f t h = elim (Bool-cases (n == k)) [
  | inl e ↦
      let same : n ≡ k = ground arith in
      rw (e, ← same, weights-put_beyond tasks n n f t (omega arith)) (omega arith)
  | inr e ↦ let less : k < n = ground arith in rw e (omega (arith, weights-put tasks n k f t less))
]

module _ (count : ℕ) (tasks : ℕ → Task) where
  abbrev pub work_left : System → ℕ
  work_left s = weights tasks count s.threads + main_weight count s.main

  -- With positive delays each step leaves less to do, so a run has no more steps than `loaded` has
  -- work: it ends.
  pub Step-less :
      {s t : System}
      → ((k : ℕ) → k < count → pos 1 ≤ℤ (tasks k).delay_message)
      → Reach count tasks s
      → Step count tasks s t
      → suc (work_left t) ≤ work_left s
  Step-less d reach (start s k h l) =
      let b = subst (λ m. Agrees count tasks m s.threads) h (Reach-Agrees count tasks reach) in
      let change = weights-put tasks count k s.threads (running (tasks k).total_time) l in
      let first : s.threads k ≡ waiting_for_start = b.1 k (omega arith) in
      rw h (omega (arith, rw first at change))
  Step-less d reach (start_failed s k h l) =
      let b = subst (λ m. Agrees count tasks m s.threads) h (Reach-Agrees count tasks reach) in
      let change = weights-put tasks count k s.threads failed l in
      let first : s.threads k ≡ waiting_for_start = b.1 k (omega arith) in
      rw h (omega (arith, rw first at change))
  Step-less d reach (all_started s h) = rw h (omega arith)
  Step-less d reach (round s k r n l h p run) =
      let change = weights-put tasks count k s.threads (running n) l in
      let less = subtract-less r (tasks k).delay_message n p (d k l) run in
      omega (arith, rw h at change, less)
  Step-less d reach (complete s k r l h p) =
      let change = weights-put tasks count k s.threads completed l in omega (arith, rw h at change)
  Step-less d reach (wait s k h l e) = rw h (omega arith)
  Step-less d reach (cleanup_items s h) = rw h (omega arith)

  Reach-fits :
      {s : System}
      → ((k : ℕ) → k < count → fits_int (tasks k).total_time ≡ true)
      → Reach count tasks s
      → (i : ℕ) → in_range (s.threads i) ≡ true
  Reach-fits f here i = refl
  Reach-fits f (next reach (start s k h l)) i = ground (arith, f k l, Reach-fits f reach i)
  Reach-fits f (next reach (start_failed s k h l)) i = ground (arith, Reach-fits f reach i)
  Reach-fits f (next reach (all_started s h)) i = Reach-fits f reach i
  Reach-fits f (next reach (round s k r n l h p run)) i =
      ground (arith, subtract-fits r (tasks k).delay_message n run, Reach-fits f reach i)
  Reach-fits f (next reach (complete s k r l h p)) i = ground (arith, Reach-fits f reach i)
  Reach-fits f (next reach (wait s k h l e)) i = Reach-fits f reach i
  Reach-fits f (next reach (cleanup_items s h)) i = Reach-fits f reach i

  -- A thread that is not done, lost or idle can go on.
  thread-Step :
      (s : System) (k : ℕ) (t : Thread)
      → k < count
      → s.threads k ≡ t
      → idle t ≡ false
      → lost t ≡ false
      → in_range t ≡ true
      → pos 1 ≤ℤ (tasks k).delay_message
      → fits_int (tasks k).delay_message ≡ true
      → (done t ≡ true) ⊎ ((u : System) × Step count tasks s u)
  thread-Step s k waiting_for_start l h i o r d f = absurd (ground arith)
  thread-Step s k failed l h i o r d f = absurd (ground arith)
  thread-Step s k completed l h i o r d f = inl refl
  thread-Step s k (running m) l h i o r d f = elim (Bool-cases (ltb_ℤ (pos 0) m)) [
    | inl p ↦
        let (n, run) = subtract-some m (tasks k).delay_message p r d f in
        inr (_, round s k m n l h p run)
    | inr p ↦ inr (_, complete s k m l h p)
  ]

  -- If the times fit an int, the delays are positive and no kthread_run has failed: from each state
  -- that is reached there is a next step, until test_module has cleaned up.
  pub Reach-Step :
      (s : System)
      → ((k : ℕ) → k < count → pos 1 ≤ℤ (tasks k).delay_message)
      → ((k : ℕ) → k < count → fits_int (tasks k).delay_message ≡ true)
      → ((k : ℕ) → k < count → fits_int (tasks k).total_time ≡ true)
      → Reach count tasks s
      → ((k : ℕ) → k < count → lost (s.threads k) ≡ false)
      → (s.main ≡ cleaned) ⊎ ((t : System) × Step count tasks s t)
  Reach-Step s d f g reach ok = at_main s.main refl
    where
      at_main : (m : Main) → s.main ≡ m → (s.main ≡ cleaned) ⊎ ((t : System) × Step count tasks s t)
      at_main (starting k) e =
          let a = subst (λ m. Agrees count tasks m s.threads) e (Reach-Agrees count tasks reach) in
          elim (Bool-cases (ltb k count)) [
            | inl l ↦ inr (_, start s k e (ground arith))
            | inr l ↦
                let last : k ≡ count = ground (arith, a.0) in
                inr (_, all_started s (e ∙ ap starting last))
          ]
      at_main (waiting k) e =
          let a = subst (λ m. Agrees count tasks m s.threads) e (Reach-Agrees count tasks reach) in
          elim (Bool-cases (ltb k count)) [
            | inl l ↦
                let b : k < count = ground arith in
                elim (thread-Step s k (s.threads k) b refl (a.2 k b) (ok k b) (Reach-fits g reach k)
                  (d k b) (f k b)) [
                    | inl c ↦ inr (_, wait s k e b (completed_of (s.threads k) c))
                    | inr step ↦ inr step
                  ]
            | inr l ↦
                let last : k ≡ count = ground (arith, a.0) in
                inr (_, cleanup_items s (e ∙ ap waiting last))
          ]
      at_main cleaned e = inl e
