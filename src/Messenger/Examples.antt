-- ===== src/Messenger/Examples.antt =====
-- The theorems on the messenger at concrete inputs: a buffer of four bytes, and texts of one digit.
use embedded_basecamp.Prelude.{ℕ, ◌+◌, ◌≡◌, refl, true, false, List, [], ◌∷◌, arith}
use embedded_basecamp.Prelude.Int.{pos}
use embedded_basecamp.Messenger.Procfs.{
  Param, remaining_size, ProcEntry, empty_entry, slice, update_entry, proc_buffer_total_size_read,
}
use embedded_basecamp.Messenger.{Messenger, messenger_chardev_read, messenger_chardev_write}
use embedded_basecamp.Messenger.Life.{Replies}
use embedded_basecamp.Messenger.Entries.{reads, reads-update_entry}
use embedded_basecamp.Messenger.Messages.{messenger_chardev_read-write}

abbrev digit : Param → ℕ → List ℕ
digit p n = n ∷ []

abbrev letters : ℕ → ℕ
letters k = 97 + k

abbrev four : Messenger
four = record {
  memory_buffer_size = 4;
  device_memory_buffer = λ _. 0;
  chardev_buffer_rw_holder = 0;
  total_messages_count = 0;
  total = empty_entry;
  remaining = empty_entry;
  messages = empty_entry;
  clear_requested_set = true;
}

abbrev abc : ProcEntry
abc = record { bytes = letters; msg_length = 3; read_pos = 1 }

reads-update_entry_example :
    ((reads (2 ∷ 1 ∷ []) (update_entry (7 ∷ 8 ∷ 9 ∷ []) empty_entry)).0 ≡ 7 ∷ 8 ∷ 9 ∷ [])
    × ((proc_buffer_total_size_read 5 0
          (reads (2 ∷ 1 ∷ []) (update_entry (7 ∷ 8 ∷ 9 ∷ []) empty_entry)).1).0
        ≡ [])
    × ((proc_buffer_total_size_read 5 0
          (reads (2 ∷ 1 ∷ []) (update_entry (7 ∷ 8 ∷ 9 ∷ []) empty_entry)).1).1.read_pos
        ≡ 0)
reads-update_entry_example =
    reads-update_entry (7 ∷ 8 ∷ 9 ∷ []) (2 ∷ 1 ∷ []) 5 empty_entry refl (omega arith)
      (omega arith, (omega arith, tt)) refl

messenger_chardev_read-write_example :
    (m1 m2 : Messenger) × (messenger_chardev_write digit letters 6 0 four ≡ (pos 4, m1))
    × (messenger_chardev_read digit 5 0 0 m1 ≡ (pos 4, slice letters 4 0, m2))
    × (m2.chardev_buffer_rw_holder ≡ 0)
    × (m2.total_messages_count ≡ 1)
    × (m2.remaining ≡ update_entry (digit remaining_size 4) m1.remaining)
messenger_chardev_read-write_example =
    messenger_chardev_read-write digit four letters 6 5 (omega arith)

-- The second file in /proc cannot be created, and there is no memory for the buffer.
abbrev replies : Replies
replies = record {
  alloc_chrdev_region = pos 0;
  cdev_add = pos 0;
  class_create = true;
  kmalloc = false;
  device_create = true;
  proc_mkdir = true;
  proc_create1 = true;
  proc_create2 = false;
  proc_create3 = true;
  clear_class_create = true;
  class_create_file = true;
}
