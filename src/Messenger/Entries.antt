-- ===== src/Messenger/Entries.antt =====
-- The entries in /proc: reading a text in pieces, and the removal of the files.
use embedded_basecamp.Prelude.{
  ℕ, zero, suc, ◌+◌, ◌-◌, ◌%◌, ◌^◌, ◌<◌, ◌≤◌, ◌≡◌, refl, Bool, true, false, List, [], ◌∷◌, ◌++◌,
  arith, length, ltb, ◌==◌, if◌then◌else◌, ap, ◌∙◌, sym,
}
use embedded_basecamp.Messenger.Procfs.{
  ProcEntry, slice, laid, update_entry, unread, read_entry, proc_buffer_total_size_read,
  proc_buffer_remaining_size_read, no_tree, initialize_procfs_handler, cleanup_procfs_entries,
}

pub slice-append : (f : ℕ → ℕ) (n m k : ℕ) → slice f n k ++ slice f m (k + n) ≡ slice f (n + m) k
unfolding slice
slice-append f zero m k =
    let e : k + 0 ≡ k = omega arith in
    let l : 0 + m ≡ m = omega arith in ap (slice f m) e ∙ ap (λ j. slice f j k) (sym l)
slice-append f (suc n) m k =
    let e : k + suc n ≡ k + 1 + n = omega arith in
    let l : suc n + m ≡ suc (n + m) = omega arith in
    ap (λ i. f k ∷ (slice f n (k + 1) ++ slice f m i)) e
    ∙ ap (λ xs. f k ∷ xs) (slice-append f n m (k + 1))
    ∙ ap (λ j. slice f j k) (sym l)

slice-shift : (f : ℕ → ℕ) (n k : ℕ) → slice (λ i. f (suc i)) n k ≡ slice f n (suc k)
unfolding slice
slice-shift f zero k = refl
slice-shift f (suc n) k =
    let e : suc k + 1 ≡ suc (k + 1) = omega arith in
    ap (λ xs. f (suc k) ∷ xs) (rw e (slice-shift f n (k + 1)))

slice-laid : (text : List ℕ) (f : ℕ → ℕ) → slice (laid text f) (length text) 0 ≡ text
unfolding slice
slice-laid [] f = refl
slice-laid (c ∷ cs) f =
    ap (λ xs. c ∷ xs)
      (sym (slice-shift (laid (c ∷ cs) f) (length cs) 0) ∙ slice-laid cs (λ i. f (suc i)))

-- A read that asks for at least one byte of the rest, and gets all that it asks for.
read_entry-full :
    (at n : ℕ) (e : ProcEntry)
    → 1 ≤ n
    → e.read_pos + n ≤ e.msg_length
    → e.msg_length < 2 ^ 64
    → read_entry at n 0 e ≡ (slice e.bytes n at, record e { read_pos = e.read_pos + n })
unfolding read_entry
read_entry-full at n e one fits small =
    let rest : unread e ≡ e.msg_length - e.read_pos = omega arith in
    let enough : ltb (unread e) n ≡ false = ground arith in
    let some_bytes : (n - 0 == 0) ≡ false = ground arith in
    let whole : n - 0 ≡ n = omega arith in
    let next : (e.read_pos + n) % 2 ^ 64 ≡ e.read_pos + n = omega arith in
    rw (enough, some_bytes, whole, next)

abbrev pub sum : List ℕ → ℕ
sum [] = 0
sum (n ∷ ns) = n + sum ns

abbrev pub AllPositive : List ℕ → Type 0
AllPositive [] = Unit
AllPositive (n ∷ ns) = (1 ≤ n) × AllPositive ns

-- Reads of these lengths, one after the other, and all that they deliver.
unfoldable pub reads : List ℕ → ProcEntry → List ℕ × ProcEntry
reads [] e = ([], e)
reads (n ∷ ns) e =
    let r = proc_buffer_total_size_read n 0 e in let rs = reads ns r.1 in (r.0 ++ rs.0, rs.1)

reads-slice :
    (ns : List ℕ) (e : ProcEntry)
    → AllPositive ns
    → e.read_pos + sum ns ≤ e.msg_length
    → e.msg_length < 2 ^ 64
    → reads ns e ≡ (slice e.bytes (sum ns) e.read_pos, record e { read_pos = e.read_pos + sum ns })
unfolding reads slice proc_buffer_total_size_read
reads-slice [] e p fits small =
    let z : e.read_pos + 0 ≡ e.read_pos = omega arith in
    ap (λ k. ([], record e { read_pos = k })) (sym z)
reads-slice (n ∷ ns) e p fits small =
    let first = read_entry-full e.read_pos n e p.0 (omega arith) small in
    let next : ProcEntry = record e { read_pos = e.read_pos + n } in
    let rest = reads-slice ns next p.1 (omega arith) small in
    let assoc : e.read_pos + n + sum ns ≡ e.read_pos + (n + sum ns) = omega arith in
    ap (λ r. let rs = reads ns r.1 in (r.0 ++ rs.0, rs.1)) first
    ∙ rw (rest, slice-append e.bytes n (sum ns) e.read_pos, assoc)

-- A read at the end of the text.
read_entry-end :
    (at n : ℕ) (e : ProcEntry)
    → e.msg_length ≡ e.read_pos
    → read_entry at n 0 e ≡ ([], record e { read_pos = 0 })
unfolding read_entry slice
read_entry-end at n e done =
    let none_left : (if ltb (unread e) n then unread e else n) - 0 ≡ 0 = ground arith in
    rw none_left

-- A text that is set while the entry is at its start is read back whole by reads of any positive
-- lengths that add up to it; the next read delivers nothing and goes back to the start.
pub reads-update_entry :
    (text ns : List ℕ) (n : ℕ) (e : ProcEntry)
    → e.read_pos ≡ 0
    → length text < 2 ^ 64
    → AllPositive ns
    → sum ns ≡ length text
    → ((reads ns (update_entry text e)).0 ≡ text)
      × ((proc_buffer_total_size_read n 0 (reads ns (update_entry text e)).1).0 ≡ [])
      × ((proc_buffer_total_size_read n 0 (reads ns (update_entry text e)).1).1.read_pos ≡ 0)
unfolding update_entry proc_buffer_total_size_read
reads-update_entry text ns n e start small p whole =
    let set : ProcEntry = update_entry text e in
    let all : reads ns set
        ≡ (slice set.bytes (sum ns) set.read_pos, record set { read_pos = set.read_pos + sum ns }) =
      reads-slice ns set p (omega arith) small in
    let last : ProcEntry = record set { read_pos = set.read_pos + sum ns } in
    let after = read_entry-end last.read_pos n last (omega arith) in
    (
      ap (λ r. r.0) all
          ∙ ap (λ k. slice set.bytes k set.read_pos) whole
          ∙ ap (slice set.bytes (length text)) start
          ∙ slice-laid text e.bytes,
      ap (λ r. (read_entry r.1.read_pos n 0 r.1).0) all ∙ ap (λ r. r.0) after,
      ap (λ r. (read_entry r.1.read_pos n 0 r.1).1.read_pos) all ∙ ap (λ r. r.1.read_pos) after,
    )

-- A read of the remaining size that is not the first delivers the start of the text again, as long as
-- the entry of the total size is at its start.
pub proc_buffer_remaining_size_read-repeats :
    (n : ℕ) (total e : ProcEntry)
    → total.read_pos ≡ 0
    → 1 ≤ n
    → e.read_pos + n ≤ e.msg_length
    → e.msg_length < 2 ^ 64
    → proc_buffer_remaining_size_read n 0 total e
      ≡ (slice e.bytes n 0, record e { read_pos = e.read_pos + n })
unfolding proc_buffer_remaining_size_read
proc_buffer_remaining_size_read-repeats n total e start one fits small =
    rw start (read_entry-full 0 n e one fits small)

-- However many of the files could be created, the cleanup removes all of them and the directory.
pub cleanup_procfs_entries-initialize :
    (dir file1 file2 file3 : Bool)
    → (cleanup_procfs_entries (initialize_procfs_handler dir file1 file2 file3 no_tree).1).existing
      ≡ []
unfolding cleanup_procfs_entries initialize_procfs_handler
cleanup_procfs_entries-initialize true true true true = refl
cleanup_procfs_entries-initialize true true true false = refl
cleanup_procfs_entries-initialize true true false file3 = refl
cleanup_procfs_entries-initialize true false file2 file3 = refl
cleanup_procfs_entries-initialize false file1 file2 file3 = refl
