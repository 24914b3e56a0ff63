-- ===== src/StringProcessor/Device.antt =====
-- The entry in /proc, the choice of the mode, and the module's life: exercise10/part03/rw.c and
-- sysfs_handler.c.
use embedded_basecamp.Prelude.{
  ℕ, ◌+◌, ◌-◌, ◌%◌, ◌^◌, Option, some, Bool, List, ltb, if◌then◌else◌, length, take,
}
use embedded_basecamp.Prelude.Int.{ℤ, pos, negsuc, eqb_ℤ}
use embedded_basecamp.Prelude.Partial.{◌>>=◌}
use embedded_basecamp.Bytes.{read_at, laid}
use embedded_basecamp.StringProcessor.{
  ConversionMode, none_conversion, flip, uppercase, buffer_size,
}
use embedded_basecamp.StringProcessor.Convert.{
  reverse_string_words, to_upper_string, copy_string_to_output,
}

-- The global variables: `processing` says whether string_processing_buffer is allocated, and
-- `callback_set` whether on_conversion_mode_changed_cb is handle_conversion_mode_changed.
pub record Converter : Type 0 where
  pub active_conversion_mode : ConversionMode
  pub proc_buffer_in : List ℕ
  pub proc_buffer_out : List ℕ
  pub proc_msg_length : ℕ
  pub proc_msg_read_pos : ℕ
  pub processing : Bool
  pub callback_set : Bool
  pub buf_msg : List ℕ

-- What is left of the message, with the wrap-around of `size_t`.
abbrev pub unread : Converter → ℕ
unread d = (d.proc_msg_length + 2 ^ 64 - d.proc_msg_read_pos) % 2 ^ 64

-- `left` is what copy_to_user returns. The bytes are those that reach the caller.
unfoldable pub procfs_read_callback :
    (length left : ℕ) → Converter → Option (ℕ × List ℕ × Converter)
procfs_read_callback length left d = do
  let n = (if ltb (unread d) length then unread d else length) - left
  bytes ← read_at d.proc_buffer_out d.proc_msg_read_pos n
  some (n, bytes, record d { proc_msg_read_pos = (d.proc_msg_read_pos + n) % 2 ^ 64 })

module _ (toupper : ℕ → ℕ) where
  -- The switch at the end of procfs_write_callback: the new bytes of proc_buffer_out.
  unfoldable pub convert : ConversionMode → Converter → Option (List ℕ)
  convert none_conversion d = copy_string_to_output d.proc_buffer_in d.proc_buffer_out
  convert flip d = reverse_string_words d.processing d.proc_buffer_in d.proc_buffer_out
  convert uppercase d = to_upper_string toupper d.proc_buffer_in d.proc_buffer_out

  -- `message` is the caller's memory, `left` what copy_from_user returns.
  unfoldable pub procfs_write_callback :
      (message : List ℕ) (left : ℕ) → Converter → Option (ℕ × Converter)
  procfs_write_callback message left d = do
    let msg_length = if ltb buffer_size (length message) then buffer_size else length message
    let d1 = record d {
      proc_buffer_in = laid (take (msg_length - left) message) d.proc_buffer_in;
      proc_msg_length = msg_length - left;
      proc_msg_read_pos = 0;
    }
    out ← convert d.active_conversion_mode d1
    some (length message, record d1 { proc_buffer_out = out })

-- convertToEnum: what it leaves in a variable that is NoneConversion, for the value parsed. An
-- out-of-range value leaves it.
unfoldable pub convert_to_enum : ℤ → ConversionMode
convert_to_enum value =
    if eqb_ℤ value (pos 1)
    then flip
    else (if eqb_ℤ value (pos 2) then uppercase else none_conversion)

-- -EIO
abbrev pub eio : ℤ
eio = negsuc 4

abbrev pub len_msg : ℕ
len_msg = 15

-- `kstrtos32` is the kernel's parser: what it leaves in a variable that is 0. The text holds no 0, so
-- strncpy copies all of it.
unfoldable pub conv_conf_store :
    (kstrtos32 : List ℕ → ℤ) → (text : List ℕ) → Converter → ℤ × Converter
conv_conf_store kstrtos32 text d =
    let mode = convert_to_enum (kstrtos32 text) in
    let d1 = record d { buf_msg = text } in
    if ltb len_msg (length text) then (eio, d) else (
      pos (length text),
      if d.callback_set then record d1 { active_conversion_mode = mode } else d1,
    )

unfoldable pub conv_conf_show : Converter → List ℕ
conv_conf_show d = d.buf_msg

unfoldable pub register_on_conversion_mode_changed_cb : Bool → Converter → Converter
register_on_conversion_mode_changed_cb callback d = record d { callback_set = callback }
