-- ===== src/Reminders/Book/Pages.antt =====
-- The pages of a list of users: what a change of the model's blocks makes of them.
use Prim.Native.String.{String}
use text.Mathlib.Text.{◌==◌ as str_eq}
use embedded_basecamp.Prelude.{
  ℕ, ◌≡◌, refl, true, false, Option, some, List, [], ◌∷◌, ◌++◌, arith, mem, Distinct, ◌==◌,
  Bool-cases, Option-cases, inl, inr, sym, append_assoc,
}
use embedded_basecamp.Prelude.Memory.{Blocks, is_some}
use embedded_basecamp.Links.{ListLib}
use embedded_basecamp.Reminders.{Reminder, Model}
use embedded_basecamp.Reminders.Users.{find_user_in}
use embedded_basecamp.Reminders.Invariant.{notes_of, name_of}
use embedded_basecamp.Reminders.Book.{
  Note, Page, known, amend, elapse, elapse_all, note_of, notes_in, page_of, pages_in,
}

pub notes_in_ext :
    (R S : Blocks Reminder) (rs : List ℕ)
    → ((r : ℕ) → mem r rs ≡ true → S r ≡ R r)
    → notes_in S rs ≡ notes_in R rs
notes_in_ext R S [] h = refl
notes_in_ext R S (r ∷ rs) h =
    rw (h r (ground arith), notes_in_ext R S rs (λ s k. h s (ground arith)))

pub notes_in-append :
    (R : Blocks Reminder) (xs ys : List ℕ) → notes_in R (xs ++ ys) ≡ notes_in R xs ++ notes_in R ys
notes_in-append R [] ys = refl
notes_in-append R (x ∷ xs) ys =
    rw (notes_in-append R xs ys)
      (sym (append_assoc (note_of (R x)) (notes_in R xs) (notes_in R ys)))

-- A name that no page has amends nothing.
pub amend_absent :
    (name : String) (f : List Note → List Note) (ps : List Page)
    → known name ps ≡ false
    → amend name f ps ≡ ps
amend_absent name f [] h = refl
amend_absent name f (p ∷ ps) h = ground (arith, amend_absent name f ps)

module _ {C : Type 0} (lib : ListLib C) where
  open lib use {entries}

  pub pages_in-append :
      (m : Model C) (us ws : List ℕ)
      → pages_in lib m (us ++ ws) ≡ pages_in lib m us ++ pages_in lib m ws
  pages_in-append m [] ws = refl
  pages_in-append m (u ∷ us) ws =
      rw (pages_in-append m us ws)
        (sym (append_assoc (page_of lib m.reminders (m.users u)) (pages_in lib m us) _))

  -- The search by name, on the pages.
  pub known-found :
      (m : Model C) (name : String) (us : List ℕ) (found : Option ℕ)
      → find_user_in lib us name m ≡ some found
      → known name (pages_in lib m us) ≡ is_some found
  unfolding find_user_in
  known-found m name [] found h = ground arith
  known-found m name (u ∷ us) found h = elim (Option-cases (m.users u)) [
    | inl k ↦ absurd (ground arith)
    | inr (x, k) ↦ elim (Bool-cases (str_eq name x.user_name)) [
      | inl e ↦ rw (k, e) (ground arith)
      | inr e ↦ rw (k, e) (known-found m name us found (rw (k, e) at h))
    ]
  ]

  pub found-mem :
      (m : Model C) (name : String) (us : List ℕ) (u : ℕ)
      → find_user_in lib us name m ≡ some (some u)
      → mem u us ≡ true
  unfolding find_user_in
  found-mem m name [] u h = cc
  found-mem m name (w ∷ us) u h = elim (Option-cases (m.users w)) [
    | inl k ↦ absurd (ground arith)
    | inr (x, k) ↦ elim (Bool-cases (str_eq name x.user_name)) [
      | inl e ↦ let run : some (some w) ≡ some (some u) = rw (k, e) at h in ground arith
      | inr e ↦ ground (arith, found-mem m name us u (rw (k, e) at h))
    ]
  ]

  abbrev pub notes_at : Model C → ℕ → List Note
  notes_at m w = notes_in m.reminders (notes_of lib (m.users w))

  pub pages_in_ext :
      (m m' : Model C) (us : List ℕ)
      → ((w : ℕ) → mem w us ≡ true → name_of (m'.users w) ≡ name_of (m.users w))
      → ((w : ℕ) → mem w us ≡ true → notes_at m' w ≡ notes_at m w)
      → pages_in lib m' us ≡ pages_in lib m us
  pages_in_ext m m' [] same h = refl
  pages_in_ext m m' (u ∷ us) same h =
      rw
        (
          same u (ground arith),
          h u (ground arith),
          pages_in_ext m m' us (λ w k. same w (ground arith)) (λ w k. h w (ground arith)),
        )
        refl

  module _ (m m' : Model C) (same : (w : ℕ) → name_of (m'.users w) ≡ name_of (m.users w)) where
    -- To change the notes of the first user of the name is to amend the pages.
    pub pages_in-amend :
        (name : String) (u : ℕ) (f : List Note → List Note) (us : List ℕ)
        → find_user_in lib us name m ≡ some (some u)
        → Distinct us
        → notes_at m' u ≡ f (notes_at m u)
        → ((w : ℕ) → (w == u) ≡ false → notes_at m' w ≡ notes_at m w)
        → pages_in lib m' us ≡ amend name f (pages_in lib m us)
    unfolding find_user_in
    pages_in-amend name u f [] found d h k = cc
    pages_in-amend name u f (w ∷ us) found d h k = elim (Option-cases (m.users w)) [
      | inl l ↦ absurd (ground arith)
      | inr (x, l) ↦ elim (Bool-cases (str_eq name x.user_name)) [
        | inl e ↦
            let run : some (some w) ≡ some (some u) = rw (l, e) at found in
            let k' : (v : ℕ) → mem v us ≡ true → notes_at m' v ≡ notes_at m v =
              λ v q. k v (ground arith) in
            let here : notes_at m' w ≡ f (notes_at m w) = ground arith in
            rw (same w, here, pages_in_ext m m' us (λ v q. same v) k', l, e) refl
        | inr e ↦
            let rest : find_user_in lib us name m ≡ some (some u) = rw (l, e) at found in
            let other : (w == u) ≡ false = ground (arith, found-mem m name us u rest) in
            rw (same w, k w other, pages_in-amend name u f us rest d.1 h k, l, e) refl
      ]
    ]

    pub pages_in-elapse :
        (us : List ℕ)
        → ((w : ℕ) → notes_at m' w ≡ elapse (notes_at m w))
        → pages_in lib m' us ≡ elapse_all (pages_in lib m us)
    pages_in-elapse [] h = refl
    pages_in-elapse (u ∷ us) h = elim (Option-cases (name_of (m.users u))) [
      | inl k ↦ rw (same u, k) (pages_in-elapse us h)
      | inr (x, k) ↦ rw (same u, k, h u, pages_in-elapse us h)
    ]
