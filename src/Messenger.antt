-- ===== src/Messenger.antt =====
-- The messenger driver of task6: the character device (module_main.c), its entries in /proc
-- (procfs_handler.c) and its clear request in /sys (sysfs_handler.c).
pub mod Procfs
pub mod Entries
pub mod Messages
pub mod Life
mod Examples
use embedded_basecamp.Prelude.{
  ℕ, zero, suc, ◌+◌, ◌-◌, ◌%◌, ◌^◌, Bool, true, false, List, [], ◌∷◌, ltb, ◌==◌, if◌then◌else◌,
}
use embedded_basecamp.Prelude.Int.{ℤ, pos, negsuc, eqb_ℤ}
use embedded_basecamp.Messenger.Procfs.{
  Param, total_size, remaining_size, messages_count, ProcEntry, empty_entry, update_entry, slice,
}

-- `memory_buffer_size` is taken as not negative. A `size_t` has 64 bits.
pub record Messenger : Type 0 where
  pub memory_buffer_size : ℕ
  pub device_memory_buffer : ℕ → ℕ
  pub chardev_buffer_rw_holder : ℕ
  pub total_messages_count : ℕ
  pub total : ProcEntry
  pub remaining : ProcEntry
  pub messages : ProcEntry
  -- whether cleanup_message_buffer is set as callback
  pub clear_requested_set : Bool

-- -EFAULT
abbrev pub efault : ℤ
efault = negsuc 13

-- -EIO
abbrev pub eio : ℤ
eio = negsuc 4

-- copy_from_user: of n bytes all but `left` are copied.
abbrev pub copied : (source : ℕ → ℕ) (n left : ℕ) → (ℕ → ℕ) → ℕ → ℕ
copied source n left memory k = if ltb k (n - left) then source k else memory k

unfoldable pub set_on_clear_requested_callback : Bool → Messenger → Messenger
set_on_clear_requested_callback callback m = record m { clear_requested_set = callback }

abbrev pub procfs_buf_len : ℕ
procfs_buf_len = 10

unfoldable pub clear_buffer_show : Messenger → ℤ × Messenger
clear_buffer_show m = (eio, m)

-- `text` is what snprintf writes: the line of a parameter with its number.
module _ (text : Param → ℕ → List ℕ) where
  unfoldable pub update_buffer_total_size : ℕ → Messenger → Messenger
  update_buffer_total_size n m = record m { total = update_entry (text total_size n) m.total }

  unfoldable pub update_remaining_buffer_size : ℕ → Messenger → Messenger
  update_remaining_buffer_size n m = record m {
    remaining = update_entry (text remaining_size n) m.remaining;
  }

  unfoldable pub update_total_messages_count : ℕ → Messenger → Messenger
  update_total_messages_count n m = record m {
    messages = update_entry (text messages_count n) m.messages;
  }

  -- `ppos` is the file position that the kernel passes, which the function leaves as it is; `left` is
  -- what copy_to_user returns. The bytes are those that reach the caller when it returns 0.
  unfoldable pub messenger_chardev_read : (count ppos left : ℕ) → Messenger → ℤ × List ℕ × Messenger
  messenger_chardev_read count ppos left m =
      let n = if ltb m.chardev_buffer_rw_holder count then m.chardev_buffer_rw_holder else count in
      if ppos == 0
      then (if left == 0
          then (
            pos n,
            slice m.device_memory_buffer n 0,
            update_remaining_buffer_size m.memory_buffer_size
                (record m { chardev_buffer_rw_holder = 0 }),
          )
          else (efault, [], m))
      else (pos 0, [], m)

  -- A length is below 2 ^ 63, so it fits the signed holder.
  unfoldable pub messenger_chardev_write :
      (buffer : ℕ → ℕ) (len left : ℕ) → Messenger → ℤ × Messenger
  messenger_chardev_write buffer len left m =
      let n = if ltb m.memory_buffer_size len then m.memory_buffer_size else len in
      let m1 = record m {
        chardev_buffer_rw_holder = n;
        device_memory_buffer = copied buffer n left m.device_memory_buffer;
      } in
      if left == 0
      then (let m2 =
            update_remaining_buffer_size ((m.memory_buffer_size + 2 ^ 64 - len) % 2 ^ 64) m1 in
          let count = (m.total_messages_count + 1) % 2 ^ 64 in
          (pos n, update_total_messages_count count (record m2 { total_messages_count = count })))
      else (efault, m1)

  unfoldable pub cleanup_message_buffer : Messenger → Messenger
  cleanup_message_buffer m = update_remaining_buffer_size m.memory_buffer_size (record m {
    chardev_buffer_rw_holder = 0;
    device_memory_buffer = λ k. if ltb k m.memory_buffer_size then 0 else m.device_memory_buffer k;
  })

  -- `kstrtos32` is the kernel's parser: what it leaves in a variable that is 0, for the text that is
  -- kept. The callback is cleanup_message_buffer.
  unfoldable pub clear_buffer_store :
      (kstrtos32 : List ℕ → ℤ) → (buf : ℕ → ℕ) (count : ℕ) → Messenger → ℤ × Messenger
  clear_buffer_store kstrtos32 buf count m =
      let n = if ltb count procfs_buf_len then count else procfs_buf_len - 1 in
      if eqb_ℤ (kstrtos32 (slice buf n 0)) (pos 1)
      then (pos n, if m.clear_requested_set then cleanup_message_buffer m else m)
      else (pos n, m)

  -- The state that chardev_init leaves when it succeeds: `memory` is what kmalloc returns.
  unfoldable pub started : (size : ℕ) → (memory : ℕ → ℕ) → Messenger
  started size memory =
      let m : Messenger = record {
        memory_buffer_size = size;
        device_memory_buffer = memory;
        chardev_buffer_rw_holder = 0;
        total_messages_count = 0;
        total = empty_entry;
        remaining = empty_entry;
        messages = empty_entry;
        clear_requested_set = false;
      } in
      set_on_clear_requested_callback true (
        update_total_messages_count 0
          (update_remaining_buffer_size size (update_buffer_total_size size m)))
