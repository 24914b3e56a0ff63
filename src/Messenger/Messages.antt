-- ===== src/Messenger/Messages.antt =====
-- The character device of the messenger: messages written, read and cleared.
use embedded_basecamp.Prelude.{
  ℕ, zero, suc, ◌+◌, ◌-◌, ◌%◌, ◌^◌, ◌<◌, ◌≤◌, ◌≡◌, refl, Bool, true, false, List, [], arith, ltb,
  ◌==◌, if◌then◌else◌, Bool-cases, inl, inr, ap, ◌∙◌,
}
use embedded_basecamp.Prelude.Int.{ℤ, pos, eqb_ℤ}
use embedded_basecamp.Messenger.Procfs.{Param, remaining_size, slice, update_entry}
use embedded_basecamp.Messenger.{
  Messenger, copied, update_remaining_buffer_size, update_total_messages_count,
  messenger_chardev_read, messenger_chardev_write, cleanup_message_buffer, clear_buffer_store,
  procfs_buf_len,
}

pub slice-copied :
    (source memory : ℕ → ℕ) (n m k : ℕ)
    → k + m ≤ n
    → slice (copied source n 0 memory) m k ≡ slice source m k
unfolding slice
slice-copied source memory n zero k h = refl
slice-copied source memory n (suc m) k h =
    let inside : ltb k (n - 0) ≡ true = ground arith in
    rw (inside, slice-copied source memory n m (k + 1) (omega arith))

-- What is kept of a message.
abbrev pub kept : Messenger → ℕ → ℕ
kept m len = if ltb m.memory_buffer_size len then m.memory_buffer_size else len

abbrev pub kept_text : ℕ → ℕ
kept_text count = if ltb count procfs_buf_len then count else procfs_buf_len - 1

abbrev answer : ℕ → Messenger → ℤ × Messenger
answer n m = (pos n, m)

abbrev pub Held : Messenger → Type 0
Held m = m.chardev_buffer_rw_holder ≤ m.memory_buffer_size

abbrev delivered : ℕ → List ℕ → Messenger → ℤ × List ℕ × Messenger
delivered n xs m = (pos n, xs, m)

module _ (text : Param → ℕ → List ℕ) (m : Messenger) where
  -- A message is cut to the size of the buffer. A read that asks for at least as much delivers what is
  -- kept, and the buffer is empty for the reader then.
  pub messenger_chardev_read-write :
      (buffer : ℕ → ℕ) (len count : ℕ)
      → kept m len ≤ count
      → (m1 m2 : Messenger) × (messenger_chardev_write text buffer len 0 m ≡ (pos (kept m len), m1))
        × (messenger_chardev_read text count 0 0 m1
            ≡ (pos (kept m len), slice buffer (kept m len) 0, m2))
        × (m2.chardev_buffer_rw_holder ≡ 0)
        × (m2.total_messages_count ≡ (m.total_messages_count + 1) % 2 ^ 64)
        × (m2.remaining ≡ update_entry (text remaining_size m.memory_buffer_size) m1.remaining)
  unfolding messenger_chardev_write messenger_chardev_read update_remaining_buffer_size
      update_total_messages_count
  messenger_chardev_read-write buffer len count enough =
      let m1 = (messenger_chardev_write text buffer len 0 m).1 in
      let m2 = (messenger_chardev_read text count 0 0 m1).2 in
      let least : (if ltb (kept m len) count then kept m len else count) ≡ kept m len =
        ground arith in
      (
        m1,
        m2,
        refl,
        ap (λ k. delivered k (slice m1.device_memory_buffer k 0) m2) least
            ∙ ap (λ xs. delivered (kept m len) xs m2)
                (slice-copied buffer m.device_memory_buffer (kept m len) (kept m len) 0
                  (omega arith)),
        refl,
        refl,
        refl,
      )

  -- After a message is taken, the entry of the remaining size shows the free bytes if the message fits;
  -- if it does not, it shows a number below 2 ^ 64 by as much as was cut off.
  pub messenger_chardev_write-remaining :
      (buffer : ℕ → ℕ) (len : ℕ)
      → len < 2 ^ 63
      → m.memory_buffer_size < 2 ^ 31
      → (messenger_chardev_write text buffer len 0 m).1.remaining
        ≡ update_entry
            (text remaining_size (
              if ltb m.memory_buffer_size len
              then 2 ^ 64 - (len - m.memory_buffer_size)
              else m.memory_buffer_size - len))
            m.remaining
  unfolding messenger_chardev_write update_remaining_buffer_size update_total_messages_count
  messenger_chardev_write-remaining buffer len a b =
      ap (λ k. update_entry (text remaining_size k) m.remaining) (ground arith)

  -- The bytes held never exceed the buffer: every operation of the device keeps it so, whatever is
  -- left uncopied.
  pub messenger-Held :
      (buffer : ℕ → ℕ) (len count ppos left : ℕ) (kstrtos32 : List ℕ → ℤ)
      → Held m
      → Held (messenger_chardev_write text buffer len left m).1
        × (Held (messenger_chardev_read text count ppos left m).2
            × (Held (cleanup_message_buffer text m)
                × Held (clear_buffer_store text kstrtos32 buffer count m).1))
  unfolding messenger_chardev_write messenger_chardev_read cleanup_message_buffer clear_buffer_store
      update_remaining_buffer_size update_total_messages_count
  messenger-Held buffer len count ppos left kstrtos32 h = (
    elim (Bool-cases (left == 0)) [ inl k ↦ rw k (ground arith) | inr k ↦ rw k (ground arith) ],
    (
      elim (Bool-cases (ppos == 0)) [
        | inl l ↦ elim (Bool-cases (left == 0)) [
          | inl k ↦ rw (l, k) (omega arith)
          | inr k ↦ rw (l, k) h
        ]
        | inr l ↦ rw l h
      ],
      (
        omega arith,
        requested
            (eqb_ℤ
              (kstrtos32
                (slice buffer (if ltb count procfs_buf_len then count else procfs_buf_len - 1) 0))
              (pos 1))
            m.clear_requested_set,
      ),
    ),
  )
    where
      requested :
          (b set : Bool)
          → Held
              (if b
                then answer (kept_text count) (if set then cleanup_message_buffer text m else m)
                else answer (kept_text count) m).1
      requested true true = omega arith
      requested true false = h
      requested false set = h

  -- A request that is parsed as 1 clears the message if the callback is set: the memory is 0 and a
  -- read delivers nothing.
  pub clear_buffer_store-cleared :
      (kstrtos32 : List ℕ → ℤ) (buf : ℕ → ℕ) (count n : ℕ)
      → m.clear_requested_set ≡ true
      → kstrtos32 (slice buf (if ltb count procfs_buf_len then count else procfs_buf_len - 1) 0)
        ≡ pos 1
      → (m' : Messenger) × ((clear_buffer_store text kstrtos32 buf count m).1 ≡ m')
        × ((k : ℕ) → k < m.memory_buffer_size → m'.device_memory_buffer k ≡ 0)
        × ((messenger_chardev_read text n 0 0 m').0 ≡ pos 0)
        × ((messenger_chardev_read text n 0 0 m').1 ≡ [])
  unfolding clear_buffer_store cleanup_message_buffer messenger_chardev_read slice
      update_remaining_buffer_size
  clear_buffer_store-cleared kstrtos32 buf count n set one =
      let least : (if ltb 0 n then 0 else n) ≡ 0 = ground arith in
      (
        cleanup_message_buffer text m,
        rw (one, set),
        λ k h. ground arith,
        ap pos least,
        ap (λ j. slice (cleanup_message_buffer text m).device_memory_buffer j 0) least,
      )
