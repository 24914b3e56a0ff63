-- ===== src/StringProcessor/Flip.antt =====
-- The flipped text again: flipping it twice, and its bytes.
use embedded_basecamp.Prelude.{
  ℕ, ◌≡◌, refl, ap, ◌∙◌, false, List, [], ◌∷◌, ◌++◌, arith, map, mem, mem-append, ◌==◌, Bool-cases,
  inl, inr, reverse, reverse-cons, reverse-reverse,
}
use embedded_basecamp.StringProcessor.Convert.{space, tokens}
use embedded_basecamp.StringProcessor.Words.{joined, flipped, tokens-cons, joined-tokens}

-- The flipped string has the words of the string, each the other way round.
abbrev SpaceFree : List (List ℕ) → Type 0
SpaceFree [] = Unit
SpaceFree (t ∷ ts) = (mem space t ≡ false) × SpaceFree ts

tokens-SpaceFree : (s : List ℕ) → SpaceFree (tokens s)
unfolding tokens
tokens-SpaceFree [] = (refl, tt)
tokens-SpaceFree (c ∷ s) =
    let (t, ts, eq) = tokens-cons s in
    let free : SpaceFree (t ∷ ts) = rw eq at (tokens-SpaceFree s) in
    elim (Bool-cases (c == space)) [
      | inl h ↦ rw h (refl, tokens-SpaceFree s)
      | inr h ↦ rw (h, eq) (ground arith, free.1)
    ]

mem-reverse : (a : ℕ) (xs : List ℕ) → mem a (reverse xs) ≡ mem a xs
mem-reverse a [] = refl
mem-reverse a (x ∷ xs) =
    rw (reverse-cons x xs, mem-append a (reverse xs) (x ∷ []), mem-reverse a xs) (ground arith)

reverse-SpaceFree : (ts : List (List ℕ)) → SpaceFree ts → SpaceFree (map reverse ts)
reverse-SpaceFree [] free = tt
reverse-SpaceFree (t ∷ ts) (here, rest) = (mem-reverse space t ∙ here, reverse-SpaceFree ts rest)

tokens-word : (w : List ℕ) → mem space w ≡ false → tokens w ≡ w ∷ []
unfolding tokens
tokens-word [] h = refl
tokens-word (c ∷ w) h =
    let other : (c == space) ≡ false = ground arith in rw (other, tokens-word w (ground arith)) refl

tokens-append : (w s : List ℕ) → mem space w ≡ false → tokens (w ++ space ∷ s) ≡ w ∷ tokens s
unfolding tokens
tokens-append [] s h = refl
tokens-append (c ∷ w) s h =
    let other : (c == space) ≡ false = ground arith in
    rw (other, tokens-append w s (ground arith)) refl

tokens-joined :
    (t : List ℕ) (ts : List (List ℕ)) → SpaceFree (t ∷ ts) → tokens (joined (t ∷ ts)) ≡ t ∷ ts
tokens-joined t [] free = tokens-word t free.0
tokens-joined t (v ∷ ts) free =
    tokens-append t (joined (v ∷ ts)) free.0 ∙ ap (λ vs. t ∷ vs) (tokens-joined v ts free.1)

reverse-all : (ts : List (List ℕ)) → map reverse (map reverse ts) ≡ ts
reverse-all [] = refl
reverse-all (t ∷ ts) = rw (reverse-reverse t, reverse-all ts) refl

pub flipped-flipped : (s : List ℕ) → flipped (flipped s) ≡ s
flipped-flipped s =
    let (t, ts, eq) = tokens-cons s in
    let free : SpaceFree (t ∷ ts) = rw eq at (tokens-SpaceFree s) in
    let again : tokens (joined (map reverse (t ∷ ts))) ≡ map reverse (t ∷ ts) =
      tokens-joined (reverse t) (map reverse ts) (reverse-SpaceFree (t ∷ ts) free) in
    rw (eq, again, reverse-all (t ∷ ts)) (rw eq at (joined-tokens s))

-- The conversion adds no 0.
pub mem-flipped : (a : ℕ) (s : List ℕ) → (space == a) ≡ false → mem a (flipped s) ≡ mem a s
mem-flipped a s other =
    let (t, ts, eq) = tokens-cons s in
    rw eq (mem-joined a t ts other) ∙ ap (mem a) (rw eq at (joined-tokens s))
  where
    mem-joined :
        (a : ℕ) (t : List ℕ) (ts : List (List ℕ))
        → (space == a) ≡ false
        → mem a (joined (map reverse (t ∷ ts))) ≡ mem a (joined (t ∷ ts))
    mem-joined a t [] other = mem-reverse a t
    mem-joined a t (v ∷ ts) other =
        rw
          (
            mem-append a (reverse t) (space ∷ joined (map reverse (v ∷ ts))),
            mem-append a t (space ∷ joined (v ∷ ts)),
            mem-reverse a t,
          )
          (ground (arith, mem-joined a v ts other))
