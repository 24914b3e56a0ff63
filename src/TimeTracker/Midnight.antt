-- ===== src/TimeTracker/Midnight.antt =====
-- The read of absolute_time whose text has become shorter between two reads, as it does at midnight.
use embedded_basecamp.Prelude.{
  ℕ, ◌+◌, ◌-◌, ◌^◌, ◌≤◌, ◌<◌, ◌≡◌, refl, ap, sym, ◌∙◌, true, false, Bool, none, some, List, [], ◌∷◌,
  ◌++◌, arith, length, ltb, leb, ◌==◌, if◌then◌else◌, if_true, if_false, Bool-cases, inl, inr,
  length-append,
}
use embedded_basecamp.Bytes.{read_at, length-laid}
use embedded_basecamp.TimeTracker.{
  DisplayMode, passed_seconds, full_time_display, Row, Tracker, procfs_buffer_format_size, print,
  unread, copy_row, Kernel, refresh_last_used_time, format_procfs_passed_seconds,
  format_procfs_passed_fulldate, format, procfs_entry_has_been_used_handler,
  procfs_entry_request_absolut_time_handler, emit_event_procfs_entry_used,
  emit_procfs_absolute_time_request, proc_buffer_absolute_time_read, read_absolute_time,
}
use embedded_basecamp.TimeTracker.Reads.{IsShort, take_short, print-text, copy_row-text}

print-length :
    (text : List ℕ) (row : Row)
    → IsShort text
    → length row.bytes ≡ procfs_buffer_format_size
    → length (print text row).bytes ≡ procfs_buffer_format_size
unfolding print
print-length text row h size =
    rw (take_short 63 text (omega arith))
      (length-laid (text ++ 0 ∷ []) row.bytes (omega (arith, length-append text (0 ∷ []))) ∙ size)

print-message :
    (text : List ℕ) (row : Row)
    → IsShort text
    → ((print text row).msg_length ≡ length text) × ((print text row).read_pos ≡ row.read_pos)
unfolding print
print-message text row h = (rw (take_short 63 text (omega arith)) refl, refl)

-- A read position behind the message: the length is not cut, and runs over the row.
copy_row-overrun :
    (n : ℕ) (row : Row)
    → row.msg_length < row.read_pos
    → row.read_pos ≤ procfs_buffer_format_size
    → length row.bytes ≡ procfs_buffer_format_size
    → procfs_buffer_format_size ≤ n
    → n < 2 ^ 63
    → copy_row n 0 row ≡ none
unfolding copy_row read_at
copy_row-overrun n row h k size room small =
    let m : (if ltb (unread row) n then unread row else n) - 0 ≡ n = ground arith in
    let out : leb (row.read_pos + n) (length row.bytes) ≡ false = ground arith in rw (m, out) refl

module _ (kernel : Kernel) where
  -- The report of a use changes nothing of the other row.
  format-frame :
      (mode : DisplayMode) (jiffies : ℕ) (t : Tracker)
      → ((format kernel mode jiffies t).absolute_time ≡ t.absolute_time)
        × ((format kernel mode jiffies t).absolute_cb ≡ t.absolute_cb)
  unfolding format_procfs_passed_seconds format_procfs_passed_fulldate
  format-frame passed_seconds jiffies t = (refl, refl)
  format-frame full_time_display jiffies t = (refl, refl)

  emit-frame :
      (jiffies : ℕ) (t : Tracker)
      → ((emit_event_procfs_entry_used kernel jiffies t).absolute_time ≡ t.absolute_time)
        × ((emit_event_procfs_entry_used kernel jiffies t).absolute_cb ≡ t.absolute_cb)
  unfolding emit_event_procfs_entry_used procfs_entry_has_been_used_handler refresh_last_used_time
  emit-frame jiffies t =
      let (row, cb) = format-frame t.current_displaying_mode jiffies t in
      let row_of : Tracker → Row = λ z. z.absolute_time in
      let cb_of : Tracker → Bool = λ z. z.absolute_cb in
      elim (Bool-cases t.used_cb) [
        | inl h ↦ (ap row_of (if_true _ _ _ h) ∙ row, ap cb_of (if_true _ _ _ h) ∙ cb)
        | inr h ↦ (ap row_of (if_false _ _ _ h), ap cb_of (if_false _ _ _ h))
      ]

  abbrev text_at : ℕ → List ℕ
  text_at now = kernel.absolute_text (kernel.time64_to_tm now)

  -- The row that a read copies from.
  asked-row :
      (now jiffies : ℕ) (t : Tracker)
      → t.absolute_cb ≡ true
      → ((emit_event_procfs_entry_used kernel jiffies
            (emit_procfs_absolute_time_request kernel now t)).absolute_time
          ≡ print (text_at now) t.absolute_time)
        × ((emit_event_procfs_entry_used kernel jiffies
              (emit_procfs_absolute_time_request kernel now t)).absolute_cb
            ≡ true)
  unfolding emit_procfs_absolute_time_request procfs_entry_request_absolut_time_handler
  asked-row now jiffies t set =
      let t1 = emit_procfs_absolute_time_request kernel now t in
      let (row, cb) = emit-frame jiffies t1 in
      let row_of : Tracker → Row = λ z. z.absolute_time in
      let cb_of : Tracker → Bool = λ z. z.absolute_cb in
      (row ∙ ap row_of (if_true _ _ _ set), cb ∙ ap cb_of (if_true _ _ _ set) ∙ set)

  read_absolute_time-row :
      (n m : ℕ) (bytes : List ℕ) (row row' : Row) (t : Tracker)
      → t.absolute_time ≡ row
      → copy_row n 0 row ≡ some (m, bytes, row')
      → 1 ≤ m
      → read_absolute_time kernel n 0 t ≡ some (m, bytes, record t { absolute_time = row' })
  unfolding read_absolute_time
  read_absolute_time-row n m bytes row row' t e run some_bytes =
      let nonzero : (m == 0) ≡ false = ground arith in rw (e, run, nonzero) refl

  read_absolute_time-none :
      (n : ℕ) (row : Row) (t : Tracker)
      → t.absolute_time ≡ row
      → copy_row n 0 row ≡ none
      → read_absolute_time kernel n 0 t ≡ none
  unfolding read_absolute_time
  read_absolute_time-none n row t e run = rw (e, run) refl

  -- A reader gets the whole text; the text of the next read is shorter; then the next read, of at
  -- least the size of the row, is not cut and runs over the end of the row.
  pub proc_buffer_absolute_time_read-overrun :
      (now later jiffies after n : ℕ) (t : Tracker)
      → t.absolute_cb ≡ true
      → t.absolute_time.read_pos ≡ 0
      → length t.absolute_time.bytes ≡ procfs_buffer_format_size
      → IsShort (text_at now)
      → length (text_at later) < length (text_at now)
      → procfs_buffer_format_size ≤ n
      → n < 2 ^ 63
      → (t1 : Tracker) × (proc_buffer_absolute_time_read kernel now jiffies n 0 t
          ≡ some (length (text_at now), text_at now, t1))
        × (proc_buffer_absolute_time_read kernel later after n 0 t1 ≡ none)
  unfolding proc_buffer_absolute_time_read
  proc_buffer_absolute_time_read-overrun now later jiffies after n t set from_start size short less
        room small =
      let (row, cb) = asked-row now jiffies t set in
      let (rest, shown) = print-text (text_at now) t.absolute_time short in
      let t' =
        emit_event_procfs_entry_used kernel jiffies
          (emit_procfs_absolute_time_request kernel now t) in
      let at_pos : ℕ → Row = λ k. record {
        bytes = text_at now ++ rest;
        msg_length = length (text_at now);
        read_pos = k;
      } in
      let read : Row = at_pos (length (text_at now)) in
      let is_whole : t'.absolute_time ≡ at_pos 0 = row ∙ shown ∙ ap at_pos from_start in
      let t1 : Tracker = record t' { absolute_time = read } in
      let first =
        read_absolute_time-row n (length (text_at now)) (text_at now) (at_pos 0) read t' is_whole
          (copy_row-text (text_at now) rest n short (omega arith)) (omega arith) in
      let (row1, cb1) = asked-row later after t1 cb in
      let bytes_of : Row → ℕ = λ r. length r.bytes in
      let full : length (text_at now ++ rest) ≡ procfs_buffer_format_size =
        ap bytes_of (sym shown) ∙ print-length (text_at now) t.absolute_time short size in
      let short1 : IsShort (text_at later) = omega arith in
      let (msg, pos) = print-message (text_at later) read short1 in
      let none_left : copy_row n 0 (print (text_at later) read) ≡ none =
        copy_row-overrun n (print (text_at later) read) (rw (msg, pos) less) (rw pos (omega arith))
          (print-length (text_at later) read short1 full) room small in
      (t1, first, read_absolute_time-none n _ _ row1 none_left)
