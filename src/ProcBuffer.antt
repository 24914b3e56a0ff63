-- ===== src/ProcBuffer.antt =====
-- The first string module, exercise10/part01/rw.c: a buffer behind one entry in /proc.
pub mod Reads
mod Examples
use embedded_basecamp.Prelude.{
  ℕ, zero, suc, ◌+◌, ◌-◌, Bool, true, false, List, [], ◌∷◌, ltb, if◌then◌else◌,
}
use embedded_basecamp.Prelude.Int.{ℤ, pos, negsuc, eqb_ℤ}
use embedded_basecamp.Messenger.{copied}
use embedded_basecamp.Messenger.Procfs.{slice}

-- `proc_buffer` is the content of the buffer; `buffer_set`, `dir_set` and `file_set` tell whether the
-- pointers proc_buffer, proc_dir and proc_file are not NULL.
pub record Example : Type 0 where
  pub proc_buffer : ℕ → ℕ
  pub proc_msg_length : ℕ
  pub proc_msg_read_pos : ℕ
  pub buffer_set : Bool
  pub dir_set : Bool
  pub file_set : Bool

abbrev pub buffer_size : ℕ
buffer_size = 10

-- -ENOMEM and -EFAULT
abbrev pub enomem : ℤ
enomem = negsuc 11

abbrev pub efault : ℤ
efault = negsuc 13

-- Whether kmalloc answers a block, and what is in it.
unfoldable pub create_buffer : Bool → (ℕ → ℕ) → Example → ℤ × Example
create_buffer kmalloc content e =
    if kmalloc
    then (pos 0, record e { proc_buffer = content; proc_msg_length = 0; buffer_set = true })
    else (enomem, record e { buffer_set = false })

unfoldable pub cleanup_buffer : Example → Example
cleanup_buffer e = record e { buffer_set = false; proc_msg_length = 0 }

unfoldable pub create_proc_example : (proc_mkdir proc_create : Bool) → Example → ℤ × Example
create_proc_example proc_mkdir proc_create e =
    let e1 = record e { dir_set = proc_mkdir } in
    let e2 = record e1 { file_set = proc_create } in
    if proc_mkdir then (if proc_create then (pos 0, e2) else (efault, e2)) else (efault, e1)

unfoldable pub cleanup_proc_example : Example → Example
cleanup_proc_example e = record e { file_set = false; dir_set = false }

-- The path of errors is one for both calls.
unfoldable pub example_init :
    (kmalloc proc_mkdir proc_create : Bool) → (ℕ → ℕ) → Example → ℤ × Example
example_init kmalloc proc_mkdir proc_create content e =
    let failed : ℤ → Example → ℤ × Example =
      λ err z. (err, cleanup_buffer (cleanup_proc_example z)) in
    let (err1, e1) = create_buffer kmalloc content e in
    let (err2, e2) = create_proc_example proc_mkdir proc_create e1 in
    if eqb_ℤ err1 (pos 0)
    then (if eqb_ℤ err2 (pos 0) then (pos 0, e2) else failed err2 e2)
    else failed err1 e1

unfoldable pub example_exit : Example → Example
example_exit e = cleanup_buffer (cleanup_proc_example e)

-- `left` is what copy_to_user returns. The read position never passes the length of the message, so
-- the subtraction does not wrap.
unfoldable pub example_read : (length left : ℕ) → Example → (ℤ × List ℕ) × Example
example_read length left e =
    let unread = e.proc_msg_length - e.proc_msg_read_pos in
    let n = (if ltb unread length then unread else length) - left in
    (
      (pos n, slice e.proc_buffer n e.proc_msg_read_pos),
      record e { proc_msg_read_pos = e.proc_msg_read_pos + n },
    )

-- `left` is what copy_from_user returns. The result is the whole length.
unfoldable pub example_write : (buffer : ℕ → ℕ) (length left : ℕ) → Example → ℤ × Example
example_write buffer length left e =
    let msg_length = if ltb buffer_size length then buffer_size else length in
    (
      pos length,
      record e {
        proc_buffer = copied buffer msg_length left e.proc_buffer;
        proc_msg_length = msg_length - left;
        proc_msg_read_pos = 0;
      },
    )
