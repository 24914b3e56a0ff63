-- ===== src/Prelude/Entries.antt =====
-- Lists of entries, each named by its address: membership, removal, distinctness, selection.
use Prim.Native.Nat.{ℕ}
use mathlib.Core.Path.{◌≡◌, refl, sym, ◌∙◌}
use mathlib.Core.Logic.{◌≢◌, inl, inr}
use mathlib.Core.Bool.{Bool, true, false, ◌||◌, ◌&&◌, not}
use mathlib.Core.List.{List, [], ◌∷◌, ◌++◌}
use native.Mathlib.Omega.{arith}
use embedded_basecamp.Prelude.Tests.{◌==◌, if◌then◌else◌, Bool-cases}

-- The identities of list entries: membership, removal and distinctness.
abbrev pub mem : ℕ → List ℕ → Bool
mem a [] = false
mem a (x ∷ xs) = (x == a) || mem a xs

-- Drops the first occurrence.
abbrev pub erase : List ℕ → ℕ → List ℕ
erase [] a = []
erase (x ∷ xs) a = if x == a then xs else x ∷ erase xs a

-- Puts `n` in front of the first `p`.
abbrev pub insert_before : ℕ → ℕ → List ℕ → List ℕ
insert_before n p [] = []
insert_before n p (x ∷ xs) = if x == p then n ∷ x ∷ xs else x ∷ insert_before n p xs

abbrev pub Distinct : List ℕ → Type 0
Distinct [] = Unit
Distinct (x ∷ xs) = (mem x xs ≡ false) × Distinct xs

pub mem-append : (a : ℕ) (xs ys : List ℕ) → mem a (xs ++ ys) ≡ (mem a xs || mem a ys)
mem-append a [] ys = refl
mem-append a (x ∷ xs) ys = ground (arith, mem-append a xs ys)

pub mem-erase :
    (a b : ℕ) (xs : List ℕ) → Distinct xs → mem a (erase xs b) ≡ (mem a xs && not (a == b))
mem-erase a b [] d = refl
mem-erase a b (x ∷ xs) d = ground (arith, mem-erase a b xs d.1)

pub erase-Distinct : (a : ℕ) (xs : List ℕ) → Distinct xs → Distinct (erase xs a)
erase-Distinct a [] d = tt
erase-Distinct a (x ∷ xs) d = ground (arith, mem-erase x a xs d.1, erase-Distinct a xs d.1)

pub erase-append_self :
    (a : ℕ) (xs ys : List ℕ) → mem a xs ≡ false → erase (xs ++ a ∷ ys) a ≡ xs ++ ys
erase-append_self a [] ys h = ground arith
erase-append_self a (x ∷ xs) ys h = ground (arith, erase-append_self a xs ys)

pub erase_absent : (a : ℕ) (xs : List ℕ) → mem a xs ≡ false → erase xs a ≡ xs
erase_absent a [] h = refl
erase_absent a (x ∷ xs) h = ground (arith, erase_absent a xs)

-- The entries that pass a test.
abbrev pub keep : (ℕ → Bool) → List ℕ → List ℕ
keep p [] = []
keep p (x ∷ xs) = if p x then x ∷ keep p xs else keep p xs

pub mem-keep : (a : ℕ) (p : ℕ → Bool) (xs : List ℕ) → mem a (keep p xs) ≡ (mem a xs && p a)
mem-keep a p [] = refl
mem-keep a p (x ∷ xs) = elim (Bool-cases (x == a)) [
  | inl h ↦ let e : x ≡ a = ground arith in rw e (ground (arith, mem-keep a p xs))
  | inr h ↦ ground (arith, mem-keep a p xs)
]

pub keep_ext :
    (p q : ℕ → Bool) (xs : List ℕ) → ((x : ℕ) → mem x xs ≡ true → p x ≡ q x) → keep p xs ≡ keep q xs
keep_ext p q [] h = refl
keep_ext p q (x ∷ xs) h =
    let e : p x ≡ q x = h x (ground arith) in rw (e, keep_ext p q xs (λ y k. h y (ground arith)))

-- To drop an entry and then test the others is to test them all, if the entry fails.
pub keep-erase :
    (p q : ℕ → Bool) (r : ℕ) (xs : List ℕ)
    → Distinct xs
    → q r ≡ false
    → ((x : ℕ) → x ≢ r → p x ≡ q x)
    → keep p (erase xs r) ≡ keep q xs
keep-erase p q r [] d f h = refl
keep-erase p q r (x ∷ xs) d f h = elim (Bool-cases (x == r)) [
  | inl k ↦
      let e : x ≡ r = ground arith in
      let fx : q x ≡ false = rw e f in
      rw (k, fx) (keep_ext p q xs (λ y m. h y (λ (w : y ≡ r). ground arith)))
  | inr k ↦ let e : p x ≡ q x = h x (ground arith) in rw k (rw (e, keep-erase p q r xs d.1 f h))
]

pub keep_all : (q : ℕ → Bool) (xs : List ℕ) → ((x : ℕ) → q x ≡ true) → keep q xs ≡ xs
keep_all q [] h = refl
keep_all q (x ∷ xs) h = rw (h x, keep_all q xs h)

pub keep-keep : (p q : ℕ → Bool) (xs : List ℕ) → keep p (keep q xs) ≡ keep (λ x. q x && p x) xs
keep-keep p q [] = refl
keep-keep p q (x ∷ xs) = ground (arith, keep-keep p q xs)

-- To drop an entry is to keep the others.
pub erase-eq-keep :
    (q : ℕ → Bool) (r : ℕ) (xs : List ℕ)
    → Distinct xs
    → q r ≡ false
    → ((x : ℕ) → x ≢ r → q x ≡ true)
    → erase xs r ≡ keep q xs
erase-eq-keep q r xs d f h =
    sym (keep_all (λ _. true) (erase xs r) (λ x. refl))
    ∙ keep-erase (λ _. true) q r xs d f (λ x n. sym (h x n))

pub Distinct-append_cons :
    (r : ℕ) (xs ys : List ℕ) → Distinct (xs ++ r ∷ ys) → (mem r xs ≡ false) × (mem r ys ≡ false)
Distinct-append_cons r [] ys d = (refl, d.0)
Distinct-append_cons r (x ∷ xs) ys d =
    ground (arith, mem-append x xs (r ∷ ys), Distinct-append_cons r xs ys d.1)

pub keep-append : (p : ℕ → Bool) (xs ys : List ℕ) → keep p (xs ++ ys) ≡ keep p xs ++ keep p ys
keep-append p [] ys = refl
keep-append p (x ∷ xs) ys = ground (arith, keep-append p xs ys)

pub Distinct-append_new :
    (n : ℕ) (xs : List ℕ) → mem n xs ≡ false → Distinct xs → Distinct (xs ++ n ∷ [])
Distinct-append_new n [] f d = (refl, tt)
Distinct-append_new n (x ∷ xs) f d =
    ground (arith, mem-append x xs (n ∷ []), Distinct-append_new n xs)
