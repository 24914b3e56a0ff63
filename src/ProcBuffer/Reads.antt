-- ===== src/ProcBuffer/Reads.antt =====
-- A message of exercise10/part01/rw.c that is read in pieces.
use embedded_basecamp.Prelude.{
  ℕ, ◌+◌, ◌-◌, ◌≡◌, refl, ap, ◌∙◌, List, [], ◌∷◌, ◌++◌, ltb, if◌then◌else◌, arith,
}
use embedded_basecamp.Messenger.{copied}
use embedded_basecamp.Messenger.Procfs.{slice}
use embedded_basecamp.Messenger.Entries.{slice-append}
use embedded_basecamp.Messenger.Messages.{slice-copied}
use embedded_basecamp.ProcBuffer.{Example, buffer_size, example_read, example_write}

-- The bytes of a sequence of reads, each with its length and what is left uncopied.
abbrev pub read_all : List (ℕ × ℕ) → Example → List ℕ
read_all [] e = []
read_all ((length, left) ∷ reads) e =
    let (answer, e') = example_read length left e in answer.1 ++ read_all reads e'

abbrev pub least : ℕ → ℕ → ℕ
least m n = if ltb m n then m else n

-- How many bytes of `unread` reach the readers.
abbrev pub delivered : List (ℕ × ℕ) → ℕ → ℕ
delivered [] unread = 0
delivered ((length, left) ∷ reads) unread =
    let n = least unread length - left in n + delivered reads (unread - n)

read_all-slice :
    (reads : List (ℕ × ℕ)) (e : Example)
    → read_all reads e
      ≡ slice e.proc_buffer
          (delivered reads (e.proc_msg_length - e.proc_msg_read_pos))
          e.proc_msg_read_pos
unfolding example_read slice
read_all-slice [] e = refl
read_all-slice ((length, left) ∷ reads) e =
    let pos = e.proc_msg_read_pos in
    let n = least (e.proc_msg_length - pos) length - left in
    let rest : e.proc_msg_length - (pos + n) ≡ e.proc_msg_length - pos - n = omega arith in
    ap (λ xs. slice e.proc_buffer n pos ++ xs)
      (read_all-slice reads (record e { proc_msg_read_pos = pos + n }))
    ∙ rw rest (slice-append e.proc_buffer n _ pos)

-- The lengths that are asked for in all, and that no byte of them is left uncopied.
abbrev pub asked : List (ℕ × ℕ) → ℕ
asked [] = 0
asked ((length, left) ∷ reads) = length + asked reads

abbrev pub AllCopied : List (ℕ × ℕ) → Type 0
AllCopied [] = Unit
AllCopied ((length, left) ∷ reads) = (left ≡ 0) × AllCopied reads

delivered-asked :
    (reads : List (ℕ × ℕ)) (unread : ℕ)
    → AllCopied reads
    → delivered reads unread ≡ least unread (asked reads)
delivered-asked [] unread c = ground arith
delivered-asked ((length, left) ∷ reads) unread c =
    let n = least unread length - left in ground (arith, delivered-asked reads (unread - n) c.1)

-- A message of any length that is written without an uncopied byte, and then read by any sequence of
-- reads without one: the reads deliver together its first bytes, as many as they ask for, but at most
-- 10, and at most its length.
pub read_all-write :
    (buffer : ℕ → ℕ) (length : ℕ) (reads : List (ℕ × ℕ)) (e : Example)
    → AllCopied reads
    → read_all reads (example_write buffer length 0 e).1
      ≡ slice buffer (least (least buffer_size length) (asked reads)) 0
unfolding example_write
read_all-write buffer length reads e c =
    let kept = least buffer_size length in
    let whole : kept - 0 - 0 ≡ kept = omega arith in
    read_all-slice reads (example_write buffer length 0 e).1
    ∙ ap (λ k. slice (copied buffer kept 0 e.proc_buffer) k 0)
        (ap (delivered reads) whole ∙ delivered-asked reads kept c)
    ∙ slice-copied buffer e.proc_buffer kept (least kept (asked reads)) 0 (ground arith)
