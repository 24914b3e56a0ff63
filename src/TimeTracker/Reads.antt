-- ===== src/TimeTracker/Reads.antt =====
-- Reads of the two entries in /proc of the time tracking module.
use embedded_basecamp.Prelude.{
  ℕ, zero, suc, ◌+◌, ◌-◌, ◌%◌, ◌^◌, ◌≤◌, ◌<◌, ◌≡◌, refl, ap, sym, ◌∙◌, true, false, some, List, [],
  ◌∷◌, ◌++◌, arith, length, take, drop, ltb, ◌==◌, if◌then◌else◌, if_true, append_assoc,
  length-append,
}
use embedded_basecamp.Bytes.{read_at, read_at-append, read_at_nothing}
use embedded_basecamp.TimeTracker.{
  DisplayMode, passed_seconds, full_time_display, Row, Tracker, procfs_buffer_format_size, print,
  unread, copy_row, Kernel, seconds_last_used, refresh_last_used_time, format_procfs_passed_seconds,
  format_procfs_passed_fulldate, format, procfs_entry_has_been_used_handler,
  emit_event_procfs_entry_used, rearm, read_last_used, proc_buffer_last_accessed_read,
}

pub take_short : (n : ℕ) (xs : List ℕ) → length xs ≤ n → take n xs ≡ xs
take_short zero [] h = refl
take_short zero (x ∷ xs) h = absurd (omega arith)
take_short (suc n) [] h = refl
take_short (suc n) (x ∷ xs) h = ap (λ ys. x ∷ ys) (take_short n xs (omega arith))

abbrev pub IsShort : List ℕ → Type 0
IsShort text = length text < procfs_buffer_format_size

-- A short text stands at the front of the row.
pub print-text :
    (text : List ℕ) (row : Row)
    → IsShort text
    → (rest : List ℕ) × (print text row
        ≡ record row { bytes = text ++ rest; msg_length = length text })
unfolding print
print-text text row h =
    let all : take (procfs_buffer_format_size - 1) text ≡ text = take_short 63 text (omega arith) in
    (
      0 ∷ drop (length (text ++ 0 ∷ [])) row.bytes,
      rw all (
          ap (λ bs. record row { bytes = bs; msg_length = length text })
            (append_assoc text (0 ∷ []) _)),
    )

-- A read of a message from its start, with enough room.
pub copy_row-text :
    (text rest : List ℕ) (n : ℕ)
    → IsShort text
    → length text ≤ n
    → copy_row n 0 (record { bytes = text ++ rest; msg_length = length text; read_pos = 0 })
      ≡ some (
        length text,
        text,
        record { bytes = text ++ rest; msg_length = length text; read_pos = length text },
      )
unfolding copy_row
copy_row-text text rest n h k =
    let row : Row = record { bytes = text ++ rest; msg_length = length text; read_pos = 0 } in
    let m : (if ltb (unread row) n then unread row else n) - 0 ≡ length text = ground arith in
    let pos : (0 + length text) % 2 ^ 64 ≡ length text = omega arith in
    rw (m, read_at-append text rest, pos) refl

-- And the read at its end.
copy_row-end :
    (text rest : List ℕ) (n : ℕ)
    → IsShort text
    → copy_row n 0
        (record { bytes = text ++ rest; msg_length = length text; read_pos = length text })
      ≡ some
          (0, [], record { bytes = text ++ rest; msg_length = length text; read_pos = length text })
unfolding copy_row
copy_row-end text rest n h =
    let row : Row = record {
      bytes = text ++ rest;
      msg_length = length text;
      read_pos = length text;
    } in
    let m : (if ltb (unread row) n then unread row else n) - 0 ≡ 0 = ground arith in
    let pos : (length text + 0) % 2 ^ 64 ≡ length text = omega arith in
    let none_left : read_at (text ++ rest) (length text) 0 ≡ some [] =
      read_at_nothing (length text) (text ++ rest) (omega (arith, length-append text rest)) in
    rw (m, none_left, pos) refl

-- The text that is shown in a mode.
abbrev pub use_text : Kernel → DisplayMode → (seconds : ℕ) → List ℕ
use_text kernel passed_seconds seconds = kernel.seconds_text seconds
use_text kernel full_time_display seconds = kernel.last_use_text (kernel.time64_to_tm seconds)

module _ (kernel : Kernel) where
  format-print :
      (mode : DisplayMode) (jiffies : ℕ) (t : Tracker)
      → format kernel mode jiffies t ≡ record t {
        last_used =
            print (use_text kernel mode (seconds_last_used kernel.hz jiffies t)) t.last_used;
      }
  unfolding format_procfs_passed_seconds format_procfs_passed_fulldate
  format-print passed_seconds jiffies t = refl
  format-print full_time_display jiffies t = refl

  -- What a reader of last_accessed finds who comes first.
  abbrev fresh : (jiffies : ℕ) → Tracker → (text rest : List ℕ) → (read_pos : ℕ) → Tracker
  fresh jiffies t text rest read_pos = record t {
    last_used = record { bytes = text ++ rest; msg_length = length text; read_pos = read_pos };
    timestamp_measure_begin = jiffies % 2 ^ 32;
    ready_read = false;
  }

  rearm-fresh :
      (jiffies : ℕ) (t : Tracker) (text : List ℕ)
      → t.ready_read ≡ true
      → t.used_cb ≡ true
      → text ≡ use_text kernel t.current_displaying_mode (seconds_last_used kernel.hz jiffies t)
      → IsShort text
      → (rest : List ℕ) × (rearm kernel jiffies t ≡ fresh jiffies t text rest 0)
  unfolding emit_event_procfs_entry_used procfs_entry_has_been_used_handler refresh_last_used_time
  rearm-fresh jiffies t text ready set e short =
      let (rest, shown) = print-text text t.last_used short in
      let with_text : List ℕ → Tracker = λ s. record t { last_used = print s t.last_used } in
      let with_row : Row → Tracker = λ row. record t { last_used = row } in
      let from_start : Tracker → Tracker =
        λ z. record z { ready_read = false; last_used = record z.last_used { read_pos = 0 } } in
      let printed =
        format-print t.current_displaying_mode jiffies t
        ∙ ap with_text (sym e)
        ∙ ap with_row shown in
      (
        rest,
        if_true _ _ _ ready
            ∙ ap from_start (if_true _ _ _ set ∙ ap (refresh_last_used_time jiffies) printed),
      )

  read-fresh :
      (jiffies n : ℕ) (t : Tracker) (text rest : List ℕ)
      → 1 ≤ length text
      → IsShort text
      → length text ≤ n
      → read_last_used kernel n 0 (fresh jiffies t text rest 0)
        ≡ some (length text, text, fresh jiffies t text rest (length text))
  unfolding read_last_used
  read-fresh jiffies n t text rest one short room =
      let some_bytes : (length text == 0) ≡ false = ground arith in
      rw (copy_row-text text rest n short room, some_bytes) refl

  read-end :
      (jiffies later n : ℕ) (t : Tracker) (text rest : List ℕ)
      → IsShort text
      → proc_buffer_last_accessed_read kernel later n 0 (fresh jiffies t text rest (length text))
        ≡ some (0, [], record (fresh jiffies t text rest (length text)) { ready_read = true })
  unfolding proc_buffer_last_accessed_read read_last_used
  read-end jiffies later n t text rest short = rw (copy_row-end text rest n short) refl

  -- With the callback set, and for a text that is not empty and shorter than its row: a reader of
  -- last_accessed whose last read came to the end, and that asks for at least the length of the text,
  -- with no byte left uncopied, gets the whole text, in the mode of the moment, of the seconds since
  -- the last use. Its next read, of as many bytes, gets nothing and makes ready for the next text. The
  -- use is counted from the first of the two reads on.
  pub proc_buffer_last_accessed_read-cycle :
      (jiffies later n : ℕ) (t : Tracker) (text : List ℕ)
      → t.ready_read ≡ true
      → t.used_cb ≡ true
      → text ≡ use_text kernel t.current_displaying_mode (seconds_last_used kernel.hz jiffies t)
      → 1 ≤ length text
      → IsShort text
      → length text ≤ n
      → (t1 : Tracker) × (t2 : Tracker) × (proc_buffer_last_accessed_read kernel jiffies n 0 t
          ≡ some (length text, text, t1))
        × (proc_buffer_last_accessed_read kernel later n 0 t1 ≡ some (0, [], t2))
        × (t2.ready_read ≡ true)
        × (t2.timestamp_measure_begin ≡ jiffies % 2 ^ 32)
        × (t2.current_displaying_mode ≡ t.current_displaying_mode)
  unfolding proc_buffer_last_accessed_read
  proc_buffer_last_accessed_read-cycle jiffies later n t text ready set e one short room =
      let (rest, armed) = rearm-fresh jiffies t text ready set e short in
      (
        fresh jiffies t text rest (length text),
        record (fresh jiffies t text rest (length text)) { ready_read = true },
        ap (read_last_used kernel n 0) armed ∙ read-fresh jiffies n t text rest one short room,
        read-end jiffies later n t text rest short,
        refl,
        refl,
        refl,
      )
