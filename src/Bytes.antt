-- ===== src/Bytes.antt =====
-- Buffers as the lists of their bytes: an access outside of a buffer is a fault. Writes and reads at
-- the front.
use embedded_basecamp.Prelude.{
  ℕ, ◌-◌, Option, ltb, none, zero, suc, ◌+◌, ◌≤◌, ◌≡◌, refl, ap, ◌∙◌, false, some, List, [], ◌∷◌,
  ◌++◌, arith, length, set, take, drop, mem, append_assoc, append-nil, length-append, Option-cases,
  inl, inr, leb, ◌==◌, if◌then◌else◌,
}
use embedded_basecamp.Prelude.Partial.{◌>>=◌}

-- b[i] = v
unfoldable pub write_at : List ℕ → ℕ → ℕ → Option (List ℕ)
write_at b i v = if ltb i (length b) then some (set b i v) else none

-- The bytes `cs` from position `i` on.
unfoldable pub write_all : List ℕ → ℕ → List ℕ → Option (List ℕ)
write_all [] i b = some b
write_all (c ∷ cs) i b = do b' ← write_at b i c; write_all cs (i + 1) b'

-- n bytes from position `i` on
unfoldable pub read_at : List ℕ → ℕ → ℕ → Option (List ℕ)
read_at b i n = if leb (i + n) (length b) then some (take n (drop i b)) else none

-- The string at the front of a buffer, as strlen and strcpy see it: the bytes before the first 0.
unfoldable pub c_string : List ℕ → Option (List ℕ)
c_string [] = none
c_string (c ∷ cs) = do
  let rest = c_string cs
  if c == 0 then some [] else (do s ← rest; some (c ∷ s))

-- The bytes `cs` over the front of a buffer.
abbrev pub laid : List ℕ → List ℕ → List ℕ
laid cs b = cs ++ drop (length cs) b

set-append : (xs ys : List ℕ) (y v : ℕ) → set (xs ++ y ∷ ys) (length xs) v ≡ xs ++ v ∷ ys
set-append [] ys y v = refl
set-append (x ∷ xs) ys y v = ap (λ zs. x ∷ zs) (set-append xs ys y v)

pub write_at-append :
    (xs ys : List ℕ) (y v : ℕ) → write_at (xs ++ y ∷ ys) (length xs) v ≡ some (xs ++ v ∷ ys)
unfolding write_at
write_at-append xs ys y v = rw (set-append xs ys y v) (ground (arith, length-append xs (y ∷ ys)))

pub drop-cons : (n : ℕ) (b : List ℕ) → suc n ≤ length b → (y : ℕ) × (drop n b ≡ y ∷ drop (suc n) b)
drop-cons n [] h = absurd (omega arith)
drop-cons zero (x ∷ b) h = (x, refl)
drop-cons (suc n) (x ∷ b) h = drop-cons n b (omega arith)

pub length-snoc : (xs : List ℕ) (v : ℕ) → length (xs ++ v ∷ []) ≡ suc (length xs)
length-snoc xs v = omega (arith, length-append xs (v ∷ []))

-- A write behind what is laid lays one byte more.
pub write_at-laid :
    (xs b : List ℕ) (v : ℕ)
    → suc (length xs) ≤ length b
    → write_at (laid xs b) (length xs) v ≡ some (laid (xs ++ v ∷ []) b)
write_at-laid xs b v h =
    let (y, eq) = drop-cons (length xs) b h in
    rw (eq, length-snoc xs v, append_assoc xs (v ∷ [])) (write_at-append xs _ y v)

pub write_all-laid :
    (cs xs b : List ℕ)
    → length xs + length cs ≤ length b
    → write_all cs (length xs) (laid xs b) ≡ some (laid (xs ++ cs) b)
unfolding write_all
write_all-laid [] xs b h = rw (append-nil xs) refl
write_all-laid (c ∷ cs) xs b h =
    let next : length xs + 1 ≡ length (xs ++ c ∷ []) = omega (arith, length-snoc xs c) in
    rw (write_at-laid xs b c (omega arith), next)
      (write_all-laid cs (xs ++ c ∷ []) b (omega (arith, length-snoc xs c))
        ∙ rw (append_assoc xs (c ∷ []) cs) refl)

pub write_all-append :
    (cs ds : List ℕ) (i : ℕ) (b : List ℕ)
    → write_all (cs ++ ds) i b ≡ (write_all cs i b >>= write_all ds (i + length cs))
unfolding write_all
write_all-append [] ds i b = ap (λ k. write_all ds k b) (omega arith)
write_all-append (c ∷ cs) ds i b = elim (Option-cases (write_at b i c)) [
  | inl h ↦ rw h refl
  | inr (b', h) ↦ rw h (
      write_all-append cs ds (i + 1) b'
      ∙ ap (λ k. write_all cs (i + 1) b' >>= write_all ds k) (omega arith))
]

take-append : (s rest : List ℕ) → take (length s) (s ++ rest) ≡ s
take-append [] rest = refl
take-append (c ∷ s) rest = ap (λ cs. c ∷ cs) (take-append s rest)

-- The string of a buffer that starts with bytes other than 0 and a 0.
pub c_string-append : (s rest : List ℕ) → mem 0 s ≡ false → c_string (s ++ 0 ∷ rest) ≡ some s
unfolding c_string
c_string-append [] rest h = refl
c_string-append (c ∷ s) rest h = rw (c_string-append s rest (ground arith)) (ground arith)

pub read_at-append : (s rest : List ℕ) → read_at (s ++ rest) 0 (length s) ≡ some s
unfolding read_at
read_at-append s rest = rw (take-append s rest) (ground (arith, length-append s rest))

pub read_at_nothing : (i : ℕ) (b : List ℕ) → i ≤ length b → read_at b i 0 ≡ some []
unfolding read_at
read_at_nothing i b h = ground arith

pub length-drop : (n : ℕ) (b : List ℕ) → length (drop n b) ≡ length b - n
length-drop zero b = omega arith
length-drop (suc n) [] = omega arith
length-drop (suc n) (x ∷ b) = omega (arith, length-drop n b)

-- What is laid over a buffer that is long enough leaves its length.
pub length-laid : (cs b : List ℕ) → length cs ≤ length b → length (laid cs b) ≡ length b
length-laid cs b h = omega (arith, length-append cs (drop (length cs) b), length-drop (length cs) b)
