-- ===== src/RunLength/Examples.antt =====
-- The theorems on the encoder at concrete inputs.
use embedded_basecamp.Prelude.{
  ℕ, ◌+◌, ◌<◌, ◌≤◌, ◌≡◌, refl, none, some, List, [], ◌∷◌, arith, length,
}
use embedded_basecamp.RunLength.{runs, runs_of, encoded_size, encode, decode}
use embedded_basecamp.RunLength.RoundTrip.{decode-encode, encode-overflow}

abbrev digit : ℕ → List ℕ
digit n = (48 + n) ∷ []

digit_one : (n : ℕ) → n < 10 → digit n ≡ (48 + n) ∷ []
digit_one n h = refl

digit_some : (n : ℕ) → 1 ≤ length (digit n)
digit_some n = omega arith

decode-encode_example :
    (text : List ℕ) × (encode digit 7 (97 ∷ 97 ∷ 97 ∷ 98 ∷ 10 ∷ []) ≡ some text)
    × (decode text ≡ 97 ∷ 97 ∷ 97 ∷ 98 ∷ 10 ∷ [])
unfolding encoded_size runs_of runs
decode-encode_example =
    decode-encode digit digit_one (97 ∷ 97 ∷ 97 ∷ 98 ∷ 10 ∷ []) 7
      (omega arith, (omega arith, (omega arith, tt))) (omega arith)

encode-overflow_example : encode digit (encoded_size digit (97 ∷ 98 ∷ [])) (97 ∷ 98 ∷ []) ≡ none
encode-overflow_example = encode-overflow digit digit_some 97 (98 ∷ [])
