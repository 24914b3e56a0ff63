-- ===== src/StringProcessor/Words.antt =====
-- reverse_token and reverse_string_words, against a description of the text that they make.
use embedded_basecamp.Prelude.{
  ℕ, suc, ◌+◌, ◌≤◌, ◌≡◌, refl, ap, sym, ◌∙◌, true, false, some, List, [], ◌∷◌, ◌++◌, arith, length,
  get_elem?, map, ltb, ◌==◌, Bool-cases, Option-cases, inl, inr, append_assoc, append-nil,
  length-append, reverse, reverse-cons, reverse-reverse,
}
use embedded_basecamp.Bytes.{write_at, write_all, laid, write_at-laid, write_all-laid}
use embedded_basecamp.StringProcessor.{buffer_size}
use embedded_basecamp.StringProcessor.Convert.{
  reverse_token_in, reverse_token, push, space, tokens, reverse_tokens, reverse_source,
}

-- Words with a space between each two.
abbrev pub joined : List (List ℕ) → List ℕ
joined [] = []
joined (w ∷ []) = w
joined (w ∷ v ∷ ws) = w ++ space ∷ joined (v ∷ ws)

-- Each word the other way round, the spaces in place.
abbrev pub flipped : List ℕ → List ℕ
flipped s = joined (map reverse (tokens s))

pub get_elem-append : (xs ys : List ℕ) (z : ℕ) → get_elem? (xs ++ z ∷ ys) (length xs) ≡ some z
get_elem-append [] ys z = refl
get_elem-append (x ∷ xs) ys z = get_elem-append xs ys z

pub length-reverse : (xs : List ℕ) → length (reverse xs) ≡ length xs
length-reverse [] = refl
length-reverse (x ∷ xs) =
    rw (reverse-cons x xs) (omega (arith, length-append (reverse xs) (x ∷ []), length-reverse xs))

-- The loop writes the source from its last byte to its first.
reverse_token_in-reverse :
    (zs ys : List ℕ) (i pos : ℕ) (b : List ℕ)
    → reverse_token_in (length zs) i (reverse zs ++ ys) pos b ≡ write_all zs (pos + i) b
unfolding reverse_token_in write_all
reverse_token_in-reverse [] ys i pos b = refl
reverse_token_in-reverse (z ∷ zs) ys i pos b =
    let here : get_elem? (reverse zs ++ z ∷ ys) (length zs) ≡ some z =
      rw (← length-reverse zs) (get_elem-append (reverse zs) ys z) in
    let next : pos + i + 1 ≡ pos + (i + 1) = omega arith in
    rw (reverse-cons z zs, append_assoc (reverse zs) (z ∷ []) ys, here, next)
      (elim (Option-cases (write_at b (pos + i) z)) [
        | inl h ↦ rw h refl
        | inr (b', h) ↦ rw h (reverse_token_in-reverse zs (z ∷ ys) (i + 1) pos b')
      ])

reverse_token-write_all :
    (t : List ℕ) (pos : ℕ) (b : List ℕ) → reverse_token t pos b ≡ write_all (reverse t) pos b
unfolding reverse_token
reverse_token-write_all t pos b =
    let whole : reverse (reverse t) ++ [] ≡ t =
      append-nil (reverse (reverse t)) ∙ reverse-reverse t in
    let here : pos + 0 ≡ pos = omega arith in
    let run = reverse_token_in-reverse (reverse t) [] 0 pos b in
    rw (whole, length-reverse t, here) at run

-- Each word the other way round, with a space behind it.
abbrev pub spaced : List (List ℕ) → List ℕ
spaced [] = []
spaced (t ∷ ts) = reverse t ++ space ∷ spaced ts

-- The loop lays these bytes one after the other.
pub reverse_tokens-laid :
    (ts : List (List ℕ)) (xs b : List ℕ)
    → length xs + length (spaced ts) ≤ length b
    → reverse_tokens ts (length xs) (laid xs b) ≡ some (laid (xs ++ spaced ts) b)
unfolding reverse_tokens
reverse_tokens-laid [] xs b h = rw (append-nil xs) refl
reverse_tokens-laid (t ∷ ts) xs b h =
    let n = length-append (reverse t) (space ∷ spaced ts) in
    let ys = xs ++ reverse t in
    let at : length xs + length t ≡ length ys =
      omega (arith, length-append xs (reverse t), length-reverse t) in
    let zs = ys ++ space ∷ [] in
    let at' : length ys + 1 ≡ length zs = omega (arith, length-append ys (space ∷ [])) in
    let fits : suc (length ys) ≤ length b =
      omega (arith, length-append xs (reverse t), length-reverse t) in
    let token =
      reverse_token-write_all t (length xs) (laid xs b)
      ∙ write_all-laid (reverse t) xs b (omega arith) in
    rw (token, at, write_at-laid ys b space fits, at')
      (reverse_tokens-laid ts zs b
          (omega (arith, length-append xs (reverse t), length-append ys (space ∷ [])))
        ∙ ap (λ cs. some (laid cs b))
            (append_assoc ys (space ∷ []) (spaced ts)
              ∙ append_assoc xs (reverse t) (space ∷ spaced ts)))

pub tokens-cons : (s : List ℕ) → (t : List ℕ) × (ts : List (List ℕ)) × (tokens s ≡ t ∷ ts)
unfolding tokens
tokens-cons [] = ([], [], refl)
tokens-cons (c ∷ s) =
    let (t, ts, eq) = tokens-cons s in
    elim (Bool-cases (c == space)) [
      | inl h ↦ ([], tokens s, rw h refl)
      | inr h ↦ (c ∷ t, ts, rw (h, eq) refl)
    ]

joined-push :
    (c : ℕ) (t : List ℕ) (ts : List (List ℕ)) → joined (push c (t ∷ ts)) ≡ c ∷ joined (t ∷ ts)
joined-push c t [] = refl
joined-push c t (v ∷ ts) = refl

pub joined-tokens : (s : List ℕ) → joined (tokens s) ≡ s
unfolding tokens
joined-tokens [] = refl
joined-tokens (c ∷ s) =
    let (t, ts, eq) = tokens-cons s in
    let rest : joined (t ∷ ts) ≡ s = rw eq at (joined-tokens s) in
    elim (Bool-cases (c == space)) [
      | inl h ↦
          let is : c ≡ space = ground arith in rw (h, eq) (ap (λ cs. space ∷ cs) rest ∙ rw is refl)
      | inr h ↦ rw (h, eq) (joined-push c t ts ∙ ap (λ cs. c ∷ cs) rest)
    ]

spaced-joined :
    (t : List ℕ) (ts : List (List ℕ))
    → spaced (t ∷ ts) ≡ joined (map reverse (t ∷ ts)) ++ space ∷ []
spaced-joined t [] = refl
spaced-joined t (v ∷ ts) =
    rw (spaced-joined v ts)
      (sym (append_assoc (reverse t) (space ∷ joined (map reverse (v ∷ ts))) _))

length-joined :
    (t : List ℕ) (ts : List (List ℕ))
    → length (joined (map reverse (t ∷ ts))) ≡ length (joined (t ∷ ts))
length-joined t [] = length-reverse t
length-joined t (v ∷ ts) = omega (
  arith,
  length-append (reverse t) (space ∷ joined (map reverse (v ∷ ts))),
  length-append t (space ∷ joined (v ∷ ts)),
  length-reverse t,
  length-joined v ts,
)

pub length-flipped : (s : List ℕ) → length (flipped s) ≡ length s
length-flipped s =
    let (t, ts, eq) = tokens-cons s in
    rw eq (length-joined t ts) ∙ ap length (rw eq at (joined-tokens s))

pub spaced-flipped : (s : List ℕ) → spaced (tokens s) ≡ flipped s ++ space ∷ []
spaced-flipped s = let (t, ts, eq) = tokens-cons s in rw eq (spaced-joined t ts)

-- On a string with room for it and two bytes more, the code writes the flipped string, a space and
-- a 0 over the front of the output.
pub reverse_source-flipped :
    (s b : List ℕ)
    → length s + 2 ≤ length b
    → length s + 1 ≤ buffer_size
    → reverse_source true s b ≡ some (laid (flipped s ++ space ∷ 0 ∷ []) b)
reverse_source-flipped s b h k =
    let ys = flipped s ++ space ∷ [] in
    let n : length ys ≡ length s + 1 =
      omega (arith, length-append (flipped s) (space ∷ []), length-flipped s) in
    let m : length (spaced (tokens s)) ≡ length s + 1 = rw (spaced-flipped s) n in
    let run : reverse_tokens (tokens s) 0 b ≡ some (laid ys b) =
      reverse_tokens-laid (tokens s) [] b (omega arith) ∙ rw (spaced-flipped s) refl in
    let small : ltb buffer_size (length s + 1) ≡ false = ground arith in
    rw (small, run, ← n, write_at-laid ys b 0 (omega arith))
      (rw (append_assoc (flipped s) (space ∷ []) (0 ∷ [])) refl)
