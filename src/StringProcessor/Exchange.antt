-- ===== src/StringProcessor/Exchange.antt =====
-- Exchanges with the converter: a text flipped twice, a text too long by one, the choice of the mode,
-- and the module's start and end.
use embedded_basecamp.Prelude.{
  ℕ, suc, ◌+◌, ◌-◌, ◌≤◌, ◌≡◌, refl, ap, subst, ◌∙◌, true, false, Option, none, some, List, [], ◌∷◌,
  ◌++◌, arith, length, get_elem?, drop, map, mem, ltb, ◌⊎◌, inl, inr, Bool-cases, Option-cases,
  length-append, if◌then◌else◌,
}
use embedded_basecamp.Prelude.Int.{ℤ, pos, eqb_ℤ}
use embedded_basecamp.Bytes.{
  length-laid, write_at, write_all, c_string, laid, c_string-append, write_all-laid,
}
use embedded_basecamp.StringProcessor.{flip, uppercase, buffer_size}
use embedded_basecamp.StringProcessor.Convert.{
  to_write, upper_source, to_upper_string, space, isdigit, tokens, reverse_tokens, reverse_source,
  reverse_string_words, init_converter_module,
}
use embedded_basecamp.StringProcessor.Device.{
  Converter, procfs_read_callback, convert, procfs_write_callback, convert_to_enum, eio, len_msg,
  conv_conf_store,
}
use embedded_basecamp.StringProcessor.Words.{
  flipped, length-flipped, get_elem-append, spaced, spaced-flipped, reverse_tokens-laid,
}
use embedded_basecamp.StringProcessor.Flip.{flipped-flipped, mem-flipped}
use embedded_basecamp.StringProcessor.Transfer.{
  take_whole, length-map, converted, drop-get, Fits, written, write-read, length-converted,
}
use embedded_basecamp.StringProcessor.Life.{
  Held, nothing, Answers, string_processor_init, string_processor_exit, start,
  remove_procfs_entries, deinit_converter_module, sysfs_handler_cleanup, init_sysfs_handler,
}

module _ (toupper : ℕ → ℕ) (digits : (c : ℕ) → isdigit c ≡ true → toupper c ≡ c) where
  -- The next message of the same length fits as well.
  Fits-next :
      (d : Converter) (s t after : List ℕ)
      → Fits toupper digits s d
      → length t ≡ length s
      → mem 0 t ≡ false
      → length (converted toupper d.active_conversion_mode s ++ after) ≡ buffer_size
      → Fits toupper digits t
          (record (written toupper digits d s
            (converted toupper d.active_conversion_mode s ++ after)) {
              proc_msg_read_pos = 0 + length s;
            })
  Fits-next d s t after fits len z room = record {
    no_zero = z;
    short = omega (arith, fits.short);
    zero_behind =
        rw (len, drop-get (length s) 0 d.proc_buffer_in fits.zero_behind)
          (get_elem-append s (drop (suc (length s)) d.proc_buffer_in) 0);
    room = room;
    allocated = fits.allocated;
  }

  -- In the mode `flip`: a short text that is written, and read, and written again as it was read, is
  -- read as it was in the beginning.
  pub procfs_write_callback-flip :
      (d : Converter) (s : List ℕ)
      → Fits toupper digits s d
      → d.active_conversion_mode ≡ flip
      → (d1 d2 d3 d4 : Converter) × (t : List ℕ) × (procfs_write_callback toupper s 0 d
          ≡ some (length s, d1))
        × (procfs_read_callback (length s) 0 d1 ≡ some (length s, t, d2))
        × (procfs_write_callback toupper t 0 d2 ≡ some (length t, d3))
        × (procfs_read_callback (length t) 0 d3 ≡ some (length t, s, d4))
  procfs_write_callback-flip d s fits mode =
      let (after, run1, bytes1, size1) =
        write-read toupper digits d s (length s) fits (omega arith) in
      let t = converted toupper d.active_conversion_mode s in
      let is : t ≡ flipped s = rw mode refl in
      let d1 = written toupper digits d s (t ++ after) in
      let d2 = record d1 { proc_msg_read_pos = 0 + length s } in
      let again : Fits toupper digits t d2 =
        Fits-next d s t after fits (length-converted toupper d.active_conversion_mode s)
          (rw is (mem-flipped 0 s refl ∙ fits.no_zero)) (size1 ∙ fits.room) in
      let (after', run2, bytes2, size2) =
        write-read toupper digits d2 t (length t) again (omega arith) in
      let back : converted toupper d.active_conversion_mode t ≡ s =
        rw (is, mode) (flipped-flipped s) in
      let d3 =
        written toupper digits d2 t (converted toupper d.active_conversion_mode t ++ after') in
      let d4 = record d3 { proc_msg_read_pos = 0 + length t } in
      let answer : List ℕ → Option (ℕ × List ℕ × Converter) = λ cs. some (length t, cs, d4) in
      (d1, d2, d3, d4, t, run1, bytes1, run2, bytes2 ∙ ap answer back)

write_at_beyond : (b : List ℕ) (i v : ℕ) → length b ≤ i → write_at b i v ≡ none
unfolding write_at
write_at_beyond b i v h = ground arith

module _ (s b : List ℕ) (long : length s + 1 ≡ buffer_size) (size : length b ≡ buffer_size) where
  small : ltb buffer_size (length s + 1) ≡ false
  small = ground arith

  reverse_source-overflow : reverse_source true s b ≡ none
  reverse_source-overflow =
      let ys = spaced (tokens s) in
      let n : length ys ≡ length s + 1 =
        rw (spaced-flipped s)
          (omega (arith, length-append (flipped s) (space ∷ []), length-flipped s)) in
      let run : reverse_tokens (tokens s) 0 b ≡ some (laid ys b) =
        reverse_tokens-laid (tokens s) [] b (omega arith) in
      let room = length-laid ys b (omega arith) in
      rw (small, run) (write_at_beyond (laid ys b) (length s + 1) 0 (omega (arith, room)))

  upper_source-overflow : (toupper : ℕ → ℕ) → upper_source toupper s b ≡ none
  upper_source-overflow toupper =
      let ys = map (to_write toupper) s in
      let n = length-map (to_write toupper) s in
      let run : write_all ys 0 b ≡ some (laid ys b) = write_all-laid ys [] b (omega arith) in
      let room = length-laid ys b (omega arith) in
      rw (small, run) (write_at_beyond (laid ys b) (length s + 1) 0 (omega (arith, room)))

-- A text one byte shorter than the buffers, with a 0 behind it, passes the test of the length, and
-- the conversions to flipped words and to upper case then write past the end of the output buffer.
pub procfs_write_callback-overflow :
    (toupper : ℕ → ℕ) (d : Converter) (s : List ℕ)
    → mem 0 s ≡ false
    → length s + 1 ≡ buffer_size
    → get_elem? d.proc_buffer_in (length s) ≡ some 0
    → length d.proc_buffer_out ≡ buffer_size
    → d.processing ≡ true
    → (d.active_conversion_mode ≡ flip) ⊎ (d.active_conversion_mode ≡ uppercase)
    → procfs_write_callback toupper s 0 d ≡ none
unfolding procfs_write_callback convert reverse_string_words to_upper_string
procfs_write_callback-overflow toupper d s z long behind size p mode =
    let n : (if ltb buffer_size (length s) then buffer_size else length s) - 0 ≡ length s =
      ground arith in
    let source : c_string (laid s d.proc_buffer_in) ≡ some s =
      rw (drop-get (length s) 0 d.proc_buffer_in behind)
        (c_string-append s (drop (suc (length s)) d.proc_buffer_in) z) in
    elim mode [
      | inl e ↦
          rw (n, take_whole s, e, source, p)
            (rw (reverse_source-overflow s d.proc_buffer_out long size) refl)
      | inr e ↦
          rw (n, take_whole s, e, source)
            (rw (upper_source-overflow s d.proc_buffer_out long size toupper) refl)
    ]

-- A text of more than 15 bytes is refused and changes nothing. Any other is kept, and with the
-- callback registered it sets the mode to the one of its number, to `none_conversion` if it has none;
-- the buffers and what is unread stay.
pub conv_conf_store-cases :
    (kstrtos32 : List ℕ → ℤ) (text : List ℕ) (d : Converter)
    → d.callback_set ≡ true
    → ((suc len_msg ≤ length text) × (conv_conf_store kstrtos32 text d ≡ (eio, d)))
      ⊎ ((d' : Converter) × (conv_conf_store kstrtos32 text d ≡ (pos (length text), d'))
          × (d'.active_conversion_mode ≡ convert_to_enum (kstrtos32 text))
          × (d'.buf_msg ≡ text)
          × (d'.proc_buffer_in ≡ d.proc_buffer_in)
          × (d'.proc_buffer_out ≡ d.proc_buffer_out)
          × (d'.proc_msg_length ≡ d.proc_msg_length)
          × (d'.proc_msg_read_pos ≡ d.proc_msg_read_pos))
unfolding conv_conf_store
conv_conf_store-cases kstrtos32 text d on = elim (Bool-cases (ltb len_msg (length text))) [
  | inl h ↦ inl (ground arith, rw h refl)
  | inr h ↦
      let mode = convert_to_enum (kstrtos32 text) in
      let d' = record d { buf_msg = text; active_conversion_mode = mode } in
      inr (d', rw (h, on) refl, refl, refl, refl, refl, refl, refl)
]

abbrev Cleaned : Option (ℤ × Held) → Type 0
Cleaned none = Unit
Cleaned (some (e, h)) =
    ((e ≡ pos 0) × (string_processor_exit h ≡ record nothing { callback = true }))
    ⊎ ((eqb_ℤ e (pos 0) ≡ false) × (h ≡ nothing))

cleaned-start :
    (a : Answers)
    → a.kmalloc_in ≡ true
    → a.kmalloc_out ≡ true
    → a.proc_mkdir ≡ true
    → a.proc_create ≡ true
    → Cleaned (string_processor_init a nothing)
unfolding string_processor_init string_processor_exit start remove_procfs_entries
    deinit_converter_module sysfs_handler_cleanup init_sysfs_handler init_converter_module
cleaned-start a h1 h2 h3 h4 = elim (Option-cases a.block) [
  | inl k ↦ rw (h1, h2, h3, h4, k) tt
  | inr (first, k) ↦ elim (Bool-cases a.class_create) [
    | inl c ↦ rw (h1, h2, h3, h4, k, c) (inl (refl, refl))
    | inr c ↦ rw (h1, h2, h3, h4, k, c) tt
  ]
]

cleaned : (a : Answers) → Cleaned (string_processor_init a nothing)
unfolding string_processor_init string_processor_exit remove_procfs_entries deinit_converter_module
    sysfs_handler_cleanup
cleaned a = elim (Bool-cases a.kmalloc_in) [
  | inr h1 ↦ rw h1 (inr (refl, refl))
  | inl h1 ↦ elim (Bool-cases a.kmalloc_out) [
    | inr h2 ↦ rw (h1, h2) (inr (refl, refl))
    | inl h2 ↦ elim (Bool-cases a.proc_mkdir) [
      | inr h3 ↦ rw (h1, h2, h3) (inr (refl, refl))
      | inl h3 ↦ elim (Bool-cases a.proc_create) [
        | inr h4 ↦ rw (h1, h2, h3, h4) (inr (refl, refl))
        | inl h4 ↦ cleaned-start a h1 h2 h3 h4
      ]
    ]
  ]
]

-- Whatever the kernel answers: string_processor_init faults, or returns 0 and string_processor_exit
-- gives all back but the pointer to the callback, or returns an error and has given all back.
pub string_processor_init-clean :
    (a : Answers) (e : ℤ) (h : Held)
    → string_processor_init a nothing ≡ some (e, h)
    → ((e ≡ pos 0) × (string_processor_exit h ≡ record nothing { callback = true }))
      ⊎ ((eqb_ℤ e (pos 0) ≡ false) × (h ≡ nothing))
string_processor_init-clean a e h run = subst Cleaned run (cleaned a)

-- Without memory for the third buffer string_processor_init faults, where it means to fail.
pub string_processor_init-no_buffer :
    (a : Answers)
    → a.kmalloc_in ≡ true
    → a.kmalloc_out ≡ true
    → a.proc_mkdir ≡ true
    → a.proc_create ≡ true
    → a.block ≡ none
    → string_processor_init a nothing ≡ none
unfolding string_processor_init start init_converter_module
string_processor_init-no_buffer a h1 h2 h3 h4 h5 = rw (h1, h2, h3, h4, h5) refl
