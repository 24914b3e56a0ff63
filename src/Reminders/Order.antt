-- ===== src/Reminders/Order.antt =====
-- The order of the queue by time, and the place of a new reminder in it.
use embedded_basecamp.Prelude.{
  ℕ, ◌≡◌, refl, Bool, true, false, Option, none, some, List, [], ◌∷◌, ◌++◌, arith, mem, Distinct,
  keep, insert_before, if◌then◌else◌, Bool-cases, subst, sym, Option-cases, ◌∙◌, inl, inr, ap,
}
use embedded_basecamp.Prelude.Int.{ℤ, pos, ◌≤ℤ◌, ltb_ℤ, pred_ℤ}
use embedded_basecamp.Prelude.Memory.{Blocks, is_some}
use embedded_basecamp.Reminders.{Reminder, Model}
use embedded_basecamp.Reminders.Notifications.{insertion_point}

abbrev pub time_of : Option Reminder → ℤ
time_of none = pos 0
time_of (some e) = e.ellapse_time

abbrev pub AtLeast : Blocks Reminder → ℤ → List ℕ → Type 0
AtLeast R t [] = Unit
AtLeast R t (r ∷ rs) = (t ≤ℤ time_of (R r)) × AtLeast R t rs

-- No reminder stands behind one with a greater time.
abbrev pub Ascending : Blocks Reminder → List ℕ → Type 0
Ascending R [] = Unit
Ascending R (r ∷ rs) = AtLeast R (time_of (R r)) rs × Ascending R rs

-- The place of a new reminder: behind all that are not later, in front of the first that is.
abbrev pub insert_sorted : Blocks Reminder → ℕ → ℤ → List ℕ → List ℕ
insert_sorted R n t [] = n ∷ []
insert_sorted R n t (r ∷ rs) =
    if ltb_ℤ t (time_of (R r)) then n ∷ r ∷ rs else r ∷ insert_sorted R n t rs

AtLeast-mono :
    (R : Blocks Reminder) (s t : ℤ) (rs : List ℕ) → s ≤ℤ t → AtLeast R t rs → AtLeast R s rs
AtLeast-mono R s t [] h a = tt
AtLeast-mono R s t (r ∷ rs) h a = (omega arith, AtLeast-mono R s t rs h a.1)

-- A change of all times that keeps their order keeps the order of the queue.
module _ (f : ℤ → ℤ) (mono : (a b : ℤ) → a ≤ℤ b → f a ≤ℤ f b) (R S : Blocks Reminder) where
  AtLeast-retime :
      (t : ℤ) (rs : List ℕ)
      → ((r : ℕ) → mem r rs ≡ true → time_of (S r) ≡ f (time_of (R r)))
      → AtLeast R t rs
      → AtLeast S (f t) rs
  AtLeast-retime t [] h a = tt
  AtLeast-retime t (r ∷ rs) h a = (
    rw (h r (ground arith)) (mono t (time_of (R r)) a.0),
    AtLeast-retime t rs (λ s k. h s (ground arith)) a.1,
  )

  pub Ascending-retime :
      (rs : List ℕ)
      → ((r : ℕ) → mem r rs ≡ true → time_of (S r) ≡ f (time_of (R r)))
      → Ascending R rs
      → Ascending S rs
  Ascending-retime [] h a = tt
  Ascending-retime (r ∷ rs) h a = (
    rw (h r (ground arith)) (AtLeast-retime (time_of (R r)) rs (λ s k. h s (ground arith)) a.0),
    Ascending-retime rs (λ s k. h s (ground arith)) a.1,
  )

pub pred_mono : (a b : ℤ) → a ≤ℤ b → pred_ℤ a ≤ℤ pred_ℤ b
pred_mono a b k = ground arith

AtLeast-insert_sorted :
    (R : Blocks Reminder) (n : ℕ) (t s : ℤ) (rs : List ℕ)
    → s ≤ℤ t
    → time_of (R n) ≡ t
    → AtLeast R s rs
    → AtLeast R s (insert_sorted R n t rs)
AtLeast-insert_sorted R n t s [] h e a = (rw e h, tt)
AtLeast-insert_sorted R n t s (r ∷ rs) h e a = elim (Bool-cases (ltb_ℤ t (time_of (R r)))) [
  | inl k ↦ rw k (rw e h, a)
  | inr k ↦ rw k (a.0, AtLeast-insert_sorted R n t s rs h e a.1)
]

pub Ascending-insert_sorted :
    (R : Blocks Reminder) (n : ℕ) (t : ℤ) (rs : List ℕ)
    → time_of (R n) ≡ t
    → Ascending R rs
    → Ascending R (insert_sorted R n t rs)
Ascending-insert_sorted R n t [] e a = (tt, tt)
Ascending-insert_sorted R n t (r ∷ rs) e a = elim (Bool-cases (ltb_ℤ t (time_of (R r)))) [
  | inl k ↦
      let le : t ≤ℤ time_of (R r) = ground arith in
      rw k (
        (rw e le, subst (λ z. AtLeast R z rs) (sym e) (AtLeast-mono R t (time_of (R r)) rs le a.0)),
        a,
      )
  | inr k ↦ rw k (
    AtLeast-insert_sorted R n t (time_of (R r)) rs (ground arith) e a.0,
    Ascending-insert_sorted R n t rs e a.1,
  )
]

AtLeast-keep :
    (R : Blocks Reminder) (t : ℤ) (p : ℕ → Bool) (rs : List ℕ)
    → AtLeast R t rs
    → AtLeast R t (keep p rs)
AtLeast-keep R t p [] a = tt
AtLeast-keep R t p (r ∷ rs) a = elim (Bool-cases (p r)) [
  | inl k ↦ rw k (a.0, AtLeast-keep R t p rs a.1)
  | inr k ↦ rw k (AtLeast-keep R t p rs a.1)
]

pub Ascending-keep :
    (R : Blocks Reminder) (p : ℕ → Bool) (rs : List ℕ) → Ascending R rs → Ascending R (keep p rs)
Ascending-keep R p [] a = tt
Ascending-keep R p (r ∷ rs) a = elim (Bool-cases (p r)) [
  | inl k ↦ rw k (AtLeast-keep R (time_of (R r)) p rs a.0, Ascending-keep R p rs a.1)
  | inr k ↦ rw k (Ascending-keep R p rs a.1)
]

-- A reminder's place, as the list operation that puts it there.
abbrev pub place : ℕ → Option ℕ → List ℕ → List ℕ
place n none rs = rs ++ n ∷ []
place n (some p) rs = insert_before n p rs

abbrev pub InList : Option ℕ → List ℕ → Type 0
InList none rs = Unit
InList (some p) rs = mem p rs ≡ true

InList-cons : (r : ℕ) (point : Option ℕ) (rs : List ℕ) → InList point rs → InList point (r ∷ rs)
InList-cons r none rs h = tt
InList-cons r (some p) rs h = ground arith

place-cons :
    (n r : ℕ) (point : Option ℕ) (rs : List ℕ)
    → mem r rs ≡ false
    → InList point rs
    → place n point (r ∷ rs) ≡ r ∷ place n point rs
place-cons n r none rs f h = refl
place-cons n r (some p) rs f h = ground arith

-- Over live entries the search ends without a fault, at the place that keeps the order.
pub insertion_point-place :
    {C : Type 0} (m : Model C) (n : ℕ) (t : ℤ) (rs : List ℕ)
    → Distinct rs
    → ((r : ℕ) → mem r rs ≡ true → is_some (m.reminders r) ≡ true)
    → (point : Option ℕ) × (insertion_point rs t m ≡ some point)
      × InList point rs
      × (place n point rs ≡ insert_sorted m.reminders n t rs)
unfolding insertion_point
insertion_point-place m n t [] d live = (none, refl, tt, refl)
insertion_point-place m n t (r ∷ rs) d live = elim (Option-cases (m.reminders r)) [
  | inl h ↦ absurd (ground (arith, live r (ground arith)))
  | inr (e, h) ↦ elim (Bool-cases (ltb_ℤ t e.ellapse_time)) [
    | inl k ↦ (some r, rw (h, k), ground arith, rw (h, k) (ground arith))
    | inr k ↦
        let (point, run, here, eq) =
          insertion_point-place m n t rs d.1 (λ s q. live s (ground arith)) in
        (
          point,
          rw (h, k) run,
          InList-cons r point rs here,
          place-cons n r point rs d.0 here ∙ rw (h, k) (ap (λ xs. r ∷ xs) eq),
        )
  ]
]
