-- ===== src/RunLength/RoundTrip.antt =====
-- Decoding what was encoded.
use embedded_basecamp.Prelude.{
  ℕ, zero, suc, ◌+◌, ◌-◌, ◌*◌, ◌<◌, ◌≤◌, ◌≡◌, refl, true, false, none, some, List, [], ◌∷◌, ◌++◌,
  arith, leb, ◌==◌, length, length-append, replicate, Bool-cases, inl, inr, ap, ◌∙◌, sym,
}
use embedded_basecamp.RunLength.{runs, runs_of, write_runs, encoded_size, encode, decode}

-- No run is longer than nine, so each count is one digit.
abbrev pub Short : List (ℕ × ℕ) → Type 0
Short [] = Unit
Short ((n, c) ∷ rs) = (n < 10) × Short rs

-- The bytes that the runs stand for.
abbrev spelled : List (ℕ × ℕ) → List ℕ
spelled [] = []
spelled ((n, c) ∷ rs) = replicate n c ++ spelled rs

replicate-snoc : (n c : ℕ) (ds : List ℕ) → replicate n c ++ c ∷ ds ≡ replicate (n + 1) c ++ ds
replicate-snoc zero c ds = refl
replicate-snoc (suc n) c ds =
    let e : suc n + 1 ≡ suc (n + 1) = omega arith in
    ap (λ xs. c ∷ xs) (replicate-snoc n c ds) ∙ ap (λ k. replicate k c ++ ds) (sym e)

spelled-runs : (n c : ℕ) (ds : List ℕ) → spelled (runs n c ds) ≡ replicate n c ++ ds
unfolding runs
spelled-runs n c [] = refl
spelled-runs n c (d ∷ ds) = elim (Bool-cases (c == d)) [
  | inl h ↦
      let e : c ≡ d = ground arith in
      rw h (spelled-runs (n + 1) c ds ∙ rw (← e) (sym (replicate-snoc n c ds)))
  | inr h ↦ rw h (ap (λ xs. replicate n c ++ xs) (spelled-runs 1 d ds))
]

runs-cons : (n c : ℕ) (ds : List ℕ) → (r : ℕ × ℕ) × (rest : List (ℕ × ℕ)) × (runs n c ds ≡ r ∷ rest)
unfolding runs
runs-cons n c [] = ((n, c), [], refl)
runs-cons n c (d ∷ ds) = elim (Bool-cases (c == d)) [
  | inl h ↦ let (r, rest, e) = runs-cons (n + 1) c ds in (r, rest, rw h e)
  | inr h ↦ ((n, c), runs 1 d ds, rw h)
]

module _ (digits : ℕ → List ℕ) (one_digit : (n : ℕ) → n < 10 → digits n ≡ (48 + n) ∷ []) where
  write_runs-decode :
      (rs : List (ℕ × ℕ)) (allocated off : ℕ)
      → Short rs
      → off + length rs * 2 + 1 ≤ allocated
      → (text : List ℕ) × (write_runs digits allocated off rs ≡ some text)
        × (decode text ≡ spelled rs)
  unfolding write_runs decode
  write_runs-decode [] allocated off s room = ([], refl, refl)
  write_runs-decode ((n, c) ∷ []) allocated off s room =
      let fits : leb (off + 2 + 1) allocated ≡ true = ground arith in
      let back : 48 + n - 48 ≡ n = omega arith in
      ((48 + n) ∷ c ∷ [], rw (one_digit n s.0, fits), rw back)
  write_runs-decode ((n, c) ∷ r ∷ rs) allocated off s room =
      let (text, run, same) = write_runs-decode (r ∷ rs) allocated (off + 2) s.1 (omega arith) in
      let fits : leb (off + 2 + 1) allocated ≡ true = ground arith in
      let back : 48 + n - 48 ≡ n = omega arith in
      (
        (48 + n) ∷ c ∷ text,
        rw (one_digit n s.0, fits, run),
        rw back (ap (λ xs. replicate n c ++ xs) same),
      )

  -- If no byte is repeated more than nine times in a row and the buffer has one byte more than the
  -- size that encode reports, encode does not fault, and decode gives the string back.
  pub decode-encode :
      (input : List ℕ) (allocated : ℕ)
      → Short (runs_of input)
      → encoded_size digits input + 1 ≤ allocated
      → (text : List ℕ) × (encode digits allocated input ≡ some text) × (decode text ≡ input)
  unfolding encode encoded_size runs_of decode write_runs
  decode-encode [] allocated s room = ([], refl, refl)
  decode-encode (c ∷ cs) allocated s room =
      let (text, run, same) = write_runs-decode (runs 1 c cs) allocated 0 s (omega arith) in
      (text, run, same ∙ spelled-runs 1 c cs)

module _ (digits : ℕ → List ℕ) (some_digit : (n : ℕ) → 1 ≤ length (digits n)) where
  write_runs-overflow :
      (r : ℕ × ℕ) (rs : List (ℕ × ℕ)) (allocated off : ℕ)
      → off + length (r ∷ rs) * 2 ≡ allocated
      → write_runs digits allocated off (r ∷ rs) ≡ none
  unfolding write_runs
  write_runs-overflow (n, c) [] allocated off size =
      let long : length (digits n ++ c ∷ []) ≡ length (digits n) + 1 =
        length-append (digits n) (c ∷ []) in
      let out : leb (off + length (digits n ++ c ∷ []) + 1) allocated ≡ false =
        ground (arith, some_digit n) in
      rw out
  write_runs-overflow (n, c) (r ∷ rs) allocated off size =
      let over = write_runs-overflow r rs allocated (off + 2) (omega arith) in
      elim (Bool-cases (leb (off + length (digits n ++ c ∷ []) + 1) allocated)) [
        | inl h ↦ rw (h, over)
        | inr h ↦ rw h
      ]

  -- Into a buffer of just the size that encode reports, which is what main allocates, encode writes past
  -- the end of the buffer on every string that is not empty.
  pub encode-overflow :
      (c : ℕ) (cs : List ℕ) → encode digits (encoded_size digits (c ∷ cs)) (c ∷ cs) ≡ none
  unfolding encode encoded_size runs_of
  encode-overflow c cs = overflow (runs 1 c cs) (runs-cons 1 c cs)
    where
      overflow :
          (rs : List (ℕ × ℕ))
          → (r : ℕ × ℕ) × (rest : List (ℕ × ℕ)) × (rs ≡ r ∷ rest)
          → write_runs digits (length rs * 2) 0 rs ≡ none
      overflow rs (r, rest, e) = rw e (write_runs-overflow r rest _ 0 (omega arith))
