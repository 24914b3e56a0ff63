-- ===== src/Messenger/Procfs.antt =====
-- The three entries in /proc of task6/procfs_handler.c: their texts, their reads, and their life.
use embedded_basecamp.Prelude.{
  ℕ, zero, suc, ◌+◌, ◌-◌, ◌%◌, ◌^◌, Bool, true, false, List, [], ◌∷◌, ltb, ◌==◌, if◌then◌else◌,
  length, erase,
}
use embedded_basecamp.Prelude.Int.{ℤ, pos, negsuc}

-- The rows of proc_buffer.
pub data Param : Type 0 where
  total_size : Param
  remaining_size : Param
  messages_count : Param

-- A row of proc_buffer with its proc_msg_length and proc_msg_read_pos.
pub record ProcEntry : Type 0 where
  pub bytes : ℕ → ℕ
  pub msg_length : ℕ
  pub read_pos : ℕ

abbrev pub empty_entry : ProcEntry
empty_entry = record { bytes = λ _. 0; msg_length = 0; read_pos = 0 }

-- n bytes from position k on.
unfoldable pub slice : (ℕ → ℕ) → (n k : ℕ) → List ℕ
slice f zero k = []
slice f (suc n) k = f k ∷ slice f n (k + 1)

-- A text laid over the bytes, with the 0 behind it.
abbrev pub laid : List ℕ → (ℕ → ℕ) → ℕ → ℕ
laid [] f zero = 0
laid [] f (suc k) = f (suc k)
laid (c ∷ cs) f zero = c
laid (c ∷ cs) f (suc k) = laid cs (λ i. f (suc i)) k

-- snprintf and strlen. The texts are shorter than the 64 bytes of a row.
unfoldable pub update_entry : List ℕ → ProcEntry → ProcEntry
update_entry text e = record e { bytes = laid text e.bytes; msg_length = length text }

-- The unread rest, with the wrap-around of `size_t`.
abbrev pub unread : ProcEntry → ℕ
unread e = (e.msg_length + 2 ^ 64 - e.read_pos) % 2 ^ 64

-- A read at position `at` of the row. `left` is what copy_to_user returns, at most the length.
unfoldable pub read_entry : (at n left : ℕ) → ProcEntry → List ℕ × ProcEntry
read_entry at n left e =
    let m = (if ltb (unread e) n then unread e else n) - left in
    (slice e.bytes m at, record e { read_pos = if m == 0 then 0 else (e.read_pos + m) % 2 ^ 64 })

unfoldable pub proc_buffer_total_size_read : (n left : ℕ) → ProcEntry → List ℕ × ProcEntry
proc_buffer_total_size_read n left e = read_entry e.read_pos n left e

-- The row is indexed with the position of the other entry, `total`.
unfoldable pub proc_buffer_remaining_size_read :
    (n left : ℕ) → (total : ProcEntry) → ProcEntry → List ℕ × ProcEntry
proc_buffer_remaining_size_read n left total e = read_entry total.read_pos n left e

unfoldable pub proc_total_messages_count_read : (n left : ℕ) → ProcEntry → List ℕ × ProcEntry
proc_total_messages_count_read n left e = read_entry e.read_pos n left e

-- The directory and the files: which of the pointers are not NULL, and the names that exist in /proc
-- (0 for the directory, 1 to 3 for its files).
pub record ProcTree : Type 0 where
  pub root : Bool
  pub total_file : Bool
  pub remaining_file : Bool
  pub messages_file : Bool
  pub existing : List ℕ

abbrev pub no_tree : ProcTree
no_tree = record {
  root = false;
  total_file = false;
  remaining_file = false;
  messages_file = false;
  existing = [];
}

-- -EFAULT
abbrev pub efault : ℤ
efault = negsuc 13

-- The arguments say which of proc_mkdir and the three proc_create succeed.
unfoldable pub initialize_procfs_handler : (dir file1 file2 file3 : Bool) → ProcTree → ℤ × ProcTree
initialize_procfs_handler dir file1 file2 file3 t =
    let t0 = record t { root = true; existing = 0 ∷ t.existing } in
    let t1 = record t0 { total_file = true; existing = 1 ∷ t0.existing } in
    let t2 = record t1 { remaining_file = true; existing = 2 ∷ t1.existing } in
    let t3 = record t2 { messages_file = true; existing = 3 ∷ t2.existing } in
    if dir
    then (if file1
        then (if file2
            then (if file3 then (pos 0, t3) else (efault, record t2 { messages_file = false }))
            else (efault, record t1 { remaining_file = false }))
        else (efault, record t0 { total_file = false }))
    else (efault, record t { root = false })

abbrev remove_entry : Bool → ℕ → List ℕ → List ℕ
remove_entry present name names = if present then erase names name else names

unfoldable pub cleanup_procfs_entries : ProcTree → ProcTree
cleanup_procfs_entries t = record {
  root = false;
  total_file = false;
  remaining_file = false;
  messages_file = false;
  existing = remove_entry t.root 0 (
      remove_entry t.messages_file 3
        (remove_entry t.remaining_file 2 (remove_entry t.total_file 1 t.existing)));
}
