-- ===== src/RunLength.antt =====
-- The run-length encoder and decoder of task3/src (encoder.c and decoder.c). A string is the list of
-- its bytes without the 0 at its end. A write out of the output buffer is a fault.
pub mod RoundTrip
mod Examples
use embedded_basecamp.Prelude.{
  ℕ, zero, suc, ◌+◌, ◌-◌, ◌*◌, Option, none, some, List, [], ◌∷◌, ◌++◌, leb, ◌==◌, if◌then◌else◌,
  length, take, replicate,
}
use embedded_basecamp.Prelude.Partial.{◌>>=◌}

-- The inner loop, at a byte c that has been counted n times: the byte after the last one is the 0,
-- which is none of the string's.
unfoldable pub runs : (n c : ℕ) → List ℕ → List (ℕ × ℕ)
runs n c [] = (n, c) ∷ []
runs n c (d ∷ ds) = if c == d then runs (n + 1) c ds else (n, c) ∷ runs 1 d ds

unfoldable pub runs_of : List ℕ → List (ℕ × ℕ)
runs_of [] = []
runs_of (c ∷ cs) = runs 1 c cs

-- `digits` is what sprintf makes of "%d".
module _ (digits : ℕ → List ℕ) where
  abbrev pub item : ℕ × ℕ → List ℕ
  item (n, c) = digits n ++ c ∷ []

  -- The runs from offset `off` on, into a buffer of `allocated` bytes: what printf shows of them.
  -- sprintf writes an item and a 0, and the next item is laid two bytes further, over all that stands
  -- behind.
  unfoldable pub write_runs : (allocated off : ℕ) → List (ℕ × ℕ) → Option (List ℕ)
  write_runs allocated off [] = some []
  write_runs allocated off (r ∷ rs) =
      let rest = write_runs allocated (off + 2) rs in
      if leb (off + length (item r) + 1) allocated
      then (do text ← rest; some (elim rs [ [] ↦ item r | _ ∷ _ ↦ take 2 (item r) ++ text ]))
      else none

  -- The first call of encode: the size that it reports.
  unfoldable pub encoded_size : List ℕ → ℕ
  encoded_size input = length (runs_of input) * 2

  -- The second call, with the reported size as output_buffer_size, into `allocated` bytes: the test of
  -- the size then holds at each run.
  unfoldable pub encode : (allocated : ℕ) → List ℕ → Option (List ℕ)
  encode allocated input = write_runs allocated 0 (runs_of input)

-- The loop stops when one byte or none is left.
unfoldable pub decode : List ℕ → List ℕ
decode [] = []
decode (n ∷ []) = []
decode (n ∷ c ∷ cs) = replicate (n - 48) c ++ decode cs
