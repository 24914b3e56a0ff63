-- ===== src/CharDevices/Files.antt =====
-- Processes at a device of exercise11/part01/fixdev.c: their opens and reads.
use embedded_basecamp.Prelude.{
  ℕ, zero, suc, ◌+◌, ◌≤◌, ◌≡◌, refl, Bool, false, List, [], ◌∷◌, ◌++◌, if◌then◌else◌, length, ltb,
  not, ◌&&◌, ◌||◌, ◌==◌, arith, Bool-cases, inl, inr,
}
use embedded_basecamp.Prelude.Int.{ℤ, pos, eqb_ℤ}
use embedded_basecamp.CharDevices.Fixed.{dev_open, dev_release, hello_str, dev_read}

-- The requests of processes: another open, or the release of a file that is open.
pub data Request : Type 0 where
  open_file : Request
  release_file : Request

-- The number of open files and device_open, behind one request.
abbrev pub serve : Request → ℕ → ℤ → ℕ × ℤ
serve open_file files opened =
    let (result, opened') = dev_open opened in
    (if eqb_ℤ result (pos 0) then files + 1 else files, opened')
serve release_file zero opened = (0, opened)
serve release_file (suc files) opened = (files, (dev_release opened).1)

abbrev pub serve_all : List Request → ℕ → ℤ → ℕ × ℤ
serve_all [] files opened = (files, opened)
serve_all (r ∷ rs) files opened = let (f, o) = serve r files opened in serve_all rs f o

abbrev Serving : List Request → ℕ → Type 0
Serving rs n = let (files, opened) = serve_all rs n (pos n) in (files ≤ 1) × (opened ≡ pos files)

serve_all-Serving : (rs : List Request) (n : ℕ) → n ≤ 1 → Serving rs n
unfolding dev_open dev_release
serve_all-Serving [] n h = (h, refl)
serve_all-Serving (open_file ∷ rs) zero h = serve_all-Serving rs 1 (omega arith)
serve_all-Serving (open_file ∷ rs) (suc zero) h = serve_all-Serving rs 1 (omega arith)
serve_all-Serving (release_file ∷ rs) zero h = serve_all-Serving rs 0 (omega arith)
serve_all-Serving (release_file ∷ rs) (suc zero) h = serve_all-Serving rs 0 (omega arith)
serve_all-Serving (open_file ∷ rs) (suc (suc n)) h = absurd (omega arith)
serve_all-Serving (release_file ∷ rs) (suc (suc n)) h = absurd (omega arith)

-- After each sequence of opens and releases that are served one at a time, one file at most is open,
-- and device_open is the number of open files.
pub serve_all-once :
    (rs : List Request)
    → let (files, opened) = serve_all rs 0 (pos 0) in (files ≤ 1) × (opened ≡ pos files)
serve_all-once rs = serve_all-Serving rs 0 (omega arith)

-- The bytes that a reader takes in all, from `ppos` on: for each read what copy_to_user leaves, and
-- the length that is asked for.
abbrev pub taken : List (ℕ × ℕ) → ℕ → List ℕ
taken [] ppos = []
taken ((uncopied, count) ∷ reads) ppos =
    let r = dev_read uncopied count ppos in r.copied ++ taken reads r.ppos

-- A read that asks for the whole text, and whose copy does not fail.
abbrev pub any_whole : List (ℕ × ℕ) → Bool
any_whole [] = false
any_whole ((uncopied, count) ∷ reads) =
    (not (ltb count (length hello_str)) && (uncopied == 0)) || any_whole reads

taken-end : (reads : List (ℕ × ℕ)) (n : ℕ) → taken reads (suc n) ≡ []
unfolding dev_read
taken-end [] n = refl
taken-end ((uncopied, count) ∷ reads) n = elim (Bool-cases (ltb count 14)) [
  | inl h ↦ rw h (taken-end reads n)
  | inr h ↦ let later : (suc n == 0) ≡ false = ground arith in rw (h, later) (taken-end reads n)
]

-- Whatever lengths a reader asks for and whichever copies fail, it takes the text exactly once if
-- one of its reads asks for the whole text and is copied, and nothing if there is none.
pub taken-once :
    (reads : List (ℕ × ℕ)) → taken reads 0 ≡ (if any_whole reads then hello_str else [])
unfolding dev_read
taken-once [] = refl
taken-once ((uncopied, count) ∷ reads) = elim (Bool-cases (ltb count 14)) [
  | inl h ↦ rw h (taken-once reads)
  | inr h ↦ elim (Bool-cases (uncopied == 0)) [
    | inl k ↦ rw (h, k, taken-end reads 13) refl
    | inr k ↦ rw (h, k) (taken-once reads)
  ]
]
