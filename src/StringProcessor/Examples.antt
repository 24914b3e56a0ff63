-- ===== src/StringProcessor/Examples.antt =====
-- The theorems on the converter, at a converter with clear buffers.
use embedded_basecamp.Prelude.{
  ℕ, zero, suc, ◌-◌, ◌≡◌, refl, true, false, none, some, List, [], ◌∷◌, arith, length, leb,
  replicate, inr, ◌&&◌, if◌then◌else◌,
}
use embedded_basecamp.StringProcessor.{ConversionMode, flip, uppercase}
use embedded_basecamp.StringProcessor.Convert.{isdigit, tokens}
use embedded_basecamp.StringProcessor.Device.{
  Converter, procfs_read_callback, procfs_write_callback,
}
use embedded_basecamp.StringProcessor.Transfer.{Fits, procfs_write_callback-read}
use embedded_basecamp.StringProcessor.Buffers.{IsValid}
use embedded_basecamp.StringProcessor.Life.{
  nothing, Answers, efault, string_processor_init, string_processor_exit, remove_procfs_entries,
  deinit_converter_module, sysfs_handler_cleanup,
}
use embedded_basecamp.StringProcessor.Exchange.{
  procfs_write_callback-flip, procfs_write_callback-overflow,
}

abbrev ascii_upper : ℕ → ℕ
ascii_upper c = if leb 97 c && leb c 122 then c - 32 else c

ascii_digits : (c : ℕ) → isdigit c ≡ true → ascii_upper c ≡ c
ascii_digits c h = ground arith

length-replicate : (n v : ℕ) → length (replicate n v) ≡ n
length-replicate zero v = refl
length-replicate (suc n) v = omega (arith, length-replicate n v)

abbrev clear_buffer : List ℕ
clear_buffer = replicate 1024 0

abbrev ready : ConversionMode → Converter
ready mode = record {
  active_conversion_mode = mode;
  proc_buffer_in = clear_buffer;
  proc_buffer_out = clear_buffer;
  proc_msg_length = 0;
  proc_msg_read_pos = 0;
  processing = true;
  callback_set = true;
  buf_msg = [];
}

-- "ab c"
abbrev text : List ℕ
text = 97 ∷ 98 ∷ 32 ∷ 99 ∷ []

text-Fits : Fits ascii_upper ascii_digits text (ready flip)
text-Fits = record {
  no_zero = refl;
  short = omega arith;
  zero_behind = refl;
  room = length-replicate 1024 0;
  allocated = refl;
}

-- It is read as "ba c".
procfs_write_callback-read_example :
    (d1 : Converter) × (d2 : Converter) × (procfs_write_callback ascii_upper text 0 (ready flip)
      ≡ some (4, d1))
    × (procfs_read_callback 10 0 d1 ≡ some (4, 98 ∷ 97 ∷ 32 ∷ 99 ∷ [], d2))
    × (procfs_read_callback 10 0 d2 ≡ some (0, [], d2))
unfolding tokens
procfs_write_callback-read_example =
    procfs_write_callback-read ascii_upper ascii_digits (ready flip) text 10 text-Fits (omega arith)

procfs_write_callback-flip_example :
    (d1 d2 d3 d4 : Converter) × (t : List ℕ) × (procfs_write_callback ascii_upper text 0
        (ready flip)
      ≡ some (4, d1))
    × (procfs_read_callback 4 0 d1 ≡ some (4, t, d2))
    × (procfs_write_callback ascii_upper t 0 d2 ≡ some (length t, d3))
    × (procfs_read_callback (length t) 0 d3 ≡ some (length t, text, d4))
procfs_write_callback-flip_example =
    procfs_write_callback-flip ascii_upper ascii_digits (ready flip) text text-Fits refl

abbrev long_text : List ℕ
long_text = replicate 1023 97

procfs_write_callback-overflow_example :
    procfs_write_callback ascii_upper long_text 0 (ready uppercase) ≡ none
procfs_write_callback-overflow_example =
    procfs_write_callback-overflow ascii_upper (ready uppercase) long_text refl refl refl refl refl
      (inr refl)

ready-IsValid : IsValid (ready flip)
ready-IsValid = record {
  size_in = length-replicate 1024 0;
  size_out = length-replicate 1024 0;
  unread_in = omega arith;
  message_in = omega arith;
}

first_write :
    (d1 : Converter) × (d2 : Converter) × (procfs_write_callback ascii_upper text 0 (ready flip)
      ≡ some (4, d1))
    × (procfs_read_callback 10 0 d1 ≡ some (4, 98 ∷ 97 ∷ 32 ∷ 99 ∷ [], d2))
    × (procfs_read_callback 10 0 d2 ≡ some (0, [], d2))
unfolding tokens
first_write =
    procfs_write_callback-read ascii_upper ascii_digits (ready flip) text 10 text-Fits (omega arith)

-- The directory exists already.
abbrev no_dir : Answers
no_dir = record {
  kmalloc_in = true;
  kmalloc_out = true;
  proc_mkdir = false;
  proc_create = true;
  block = some 1;
  class_create = true;
  class_create_file = true;
}

no_dir_run : string_processor_init no_dir nothing ≡ some (efault, nothing)
unfolding string_processor_init string_processor_exit remove_procfs_entries deinit_converter_module
    sysfs_handler_cleanup
no_dir_run = refl

abbrev no_block : Answers
no_block = record no_dir { proc_mkdir = true; block = none }
