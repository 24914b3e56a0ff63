-- ===== src/StringProcessor/Transfer.antt =====
-- A write of a message and the reads that follow: procfs_write_callback and procfs_read_callback.
use embedded_basecamp.Prelude.{
  ℕ, zero, suc, ◌+◌, ◌-◌, ◌^◌, ◌%◌, ◌≤◌, ◌≡◌, refl, ap, ◌∙◌, true, false, some, List, [], ◌∷◌, ◌++◌,
  arith, length, get_elem?, take, drop, map, mem, ltb, Bool-cases, inl, inr, append_assoc,
  length-append, if◌then◌else◌,
}
use embedded_basecamp.Bytes.{
  write_all, read_at, laid, write_at-laid, write_all-laid, c_string-append, read_at-append,
  drop-cons, length-snoc, read_at_nothing,
}
use embedded_basecamp.StringProcessor.{
  ConversionMode, none_conversion, flip, uppercase, buffer_size,
}
use embedded_basecamp.StringProcessor.Convert.{
  space, reverse_string_words, isdigit, to_write, upper_source, to_upper_string,
  copy_string_to_output,
}
use embedded_basecamp.StringProcessor.Device.{
  Converter, unread, procfs_read_callback, convert, procfs_write_callback,
}
use embedded_basecamp.StringProcessor.Buffers.{convert-length}
use embedded_basecamp.StringProcessor.Words.{flipped, length-flipped, reverse_source-flipped}

-- What a mode makes of a text.
abbrev pub converted : (ℕ → ℕ) → ConversionMode → List ℕ → List ℕ
converted toupper none_conversion s = s
converted toupper flip s = flipped s
converted toupper uppercase s = map toupper s

pub length-map : (f : ℕ → ℕ) (s : List ℕ) → length (map f s) ≡ length s
length-map f [] = refl
length-map f (c ∷ s) = ap suc (length-map f s)

pub length-converted :
    (toupper : ℕ → ℕ) (mode : ConversionMode) (s : List ℕ)
    → length (converted toupper mode s) ≡ length s
length-converted toupper none_conversion s = refl
length-converted toupper flip s = length-flipped s
length-converted toupper uppercase s = length-map toupper s

pub take_whole : (s : List ℕ) → take (length s) s ≡ s
take_whole [] = refl
take_whole (c ∷ s) = ap (λ cs. c ∷ cs) (take_whole s)

-- The bytes of a buffer from a known one on.
pub drop-get : (n v : ℕ) (b : List ℕ) → get_elem? b n ≡ some v → drop n b ≡ v ∷ drop (suc n) b
drop-get n v [] h = cc
drop-get zero v (x ∷ b) h = ground arith
drop-get (suc n) v (x ∷ b) h = drop-get n v b h

module _ (toupper : ℕ → ℕ) (digits : (c : ℕ) → isdigit c ≡ true → toupper c ≡ c) where
  map-to_write : (s : List ℕ) → map (to_write toupper) s ≡ map toupper s
  map-to_write [] = refl
  map-to_write (c ∷ s) = elim (Bool-cases (isdigit c)) [
    | inl h ↦ rw (h, digits c h, map-to_write s) refl
    | inr h ↦ rw (h, map-to_write s) refl
  ]

  -- The 0 goes behind the byte that follows the text, which stays.
  upper_source-laid :
      (s b : List ℕ)
      → length s + 2 ≤ length b
      → length s + 1 ≤ buffer_size
      → (y : ℕ) × (upper_source toupper s b ≡ some (laid (map toupper s ++ y ∷ 0 ∷ []) b))
  upper_source-laid s b h k =
      let cs = map toupper s in
      let n = length-map toupper s in
      let (y, eq) = drop-cons (length cs) b (omega arith) in
      let small : ltb buffer_size (length s + 1) ≡ false = ground arith in
      let run : write_all cs 0 b ≡ some (laid cs b) = write_all-laid cs [] b (omega arith) in
      let zs = cs ++ y ∷ [] in
      let at : length s + 1 ≡ length zs = omega (arith, length-snoc cs y) in
      let same : laid cs b ≡ laid zs b =
        rw (length-snoc cs y, append_assoc cs (y ∷ [])) (ap (λ ds. cs ++ ds) eq) in
      (
        y,
        rw
            (
              small,
              map-to_write s,
              run,
              same,
              at,
              write_at-laid zs b 0 (omega (arith, length-snoc cs y)),
            )
            (rw (append_assoc cs (y ∷ []) (0 ∷ [])) refl),
      )

  -- A conversion of a message with a 0 behind it leaves the converted text at the front of the output.
  pub convert-converted :
      (d : Converter) (s rest : List ℕ)
      → d.proc_buffer_in ≡ s ++ 0 ∷ rest
      → mem 0 s ≡ false
      → length s + 2 ≤ length d.proc_buffer_out
      → length s + 1 ≤ buffer_size
      → d.processing ≡ true
      → (mode : ConversionMode)
      → (after : List ℕ) × (convert toupper mode d ≡ some (converted toupper mode s ++ after))
  unfolding convert copy_string_to_output reverse_string_words to_upper_string
  convert-converted d s rest e z h k p none_conversion =
      let b = d.proc_buffer_out in
      let run = write_all-laid (s ++ 0 ∷ []) [] b (omega (arith, length-snoc s 0)) in
      let after : List ℕ = 0 ∷ drop (length (s ++ 0 ∷ [])) b in
      (after, rw (e, c_string-append s rest z) run ∙ ap some (append_assoc s (0 ∷ []) _))
  convert-converted d s rest e z h k p flip =
      let b = d.proc_buffer_out in
      let run = reverse_source-flipped s b h k in
      let after : List ℕ = space ∷ 0 ∷ drop (length (flipped s ++ space ∷ 0 ∷ [])) b in
      (
        after,
        rw (e, c_string-append s rest z, p) run
            ∙ ap some (append_assoc (flipped s) (space ∷ 0 ∷ []) _),
      )
  convert-converted d s rest e z h k p uppercase =
      let b = d.proc_buffer_out in
      let (y, run) = upper_source-laid s b h k in
      let after : List ℕ = y ∷ 0 ∷ drop (length (map toupper s ++ y ∷ 0 ∷ [])) b in
      (
        after,
        rw (e, c_string-append s rest z) run
            ∙ ap some (append_assoc (map toupper s) (y ∷ 0 ∷ []) _),
      )

  -- The message is short of the buffers, with a 0 in proc_buffer_in behind it.
  pub record Fits (s : List ℕ) (d : Converter) : Type 0 where
    pub no_zero : mem 0 s ≡ false
    pub short : length s + 2 ≤ buffer_size
    pub zero_behind : get_elem? d.proc_buffer_in (length s) ≡ some 0
    pub room : length d.proc_buffer_out ≡ buffer_size
    pub allocated : d.processing ≡ true

  abbrev pub written : Converter → List ℕ → List ℕ → Converter
  written d s out = record d {
    proc_buffer_in = laid s d.proc_buffer_in;
    proc_buffer_out = out;
    proc_msg_length = length s;
    proc_msg_read_pos = 0;
  }

  write_whole :
      (d : Converter) (s : List ℕ)
      → Fits s d
      → (after : List ℕ) × (procfs_write_callback toupper s 0 d
          ≡ some (length s, written d s (converted toupper d.active_conversion_mode s ++ after)))
        × (length (converted toupper d.active_conversion_mode s ++ after)
            ≡ length d.proc_buffer_out)
  unfolding procfs_write_callback
  write_whole d s fits =
      let d1 = record (written d s d.proc_buffer_out) { proc_msg_length = length s } in
      let behind = drop-get (length s) 0 d.proc_buffer_in fits.zero_behind in
      let (after, run) =
        convert-converted d1 s (drop (suc (length s)) d.proc_buffer_in) (ap (λ cs. s ++ cs) behind)
          fits.no_zero (omega (arith, fits.short, fits.room)) (omega (arith, fits.short))
          fits.allocated d.active_conversion_mode in
      let n : (if ltb buffer_size (length s) then buffer_size else length s) - 0 ≡ length s =
        ground (arith, fits.short) in
      (
        after,
        rw (n, take_whole s, run) refl,
        convert-length toupper d.active_conversion_mode d1 _ run,
      )

  read_result :
      (d : Converter) (n m : ℕ) (bytes : List ℕ)
      → (if ltb (unread d) n then unread d else n) ≡ m
      → read_at d.proc_buffer_out d.proc_msg_read_pos m ≡ some bytes
      → d.proc_msg_read_pos + m ≤ buffer_size
      → procfs_read_callback n 0 d
        ≡ some (m, bytes, record d { proc_msg_read_pos = d.proc_msg_read_pos + m })
  unfolding procfs_read_callback
  read_result d n m bytes e run small =
      let whole : (if ltb (unread d) n then unread d else n) - 0 ≡ m = omega arith in
      let pos : (d.proc_msg_read_pos + m) % 2 ^ 64 ≡ d.proc_msg_read_pos + m = grind arith in
      rw (whole, run, pos) refl

  at_end :
      (d : Converter) (n : ℕ)
      → (if ltb (unread d) n then unread d else n) ≡ 0
      → d.proc_msg_read_pos ≤ length d.proc_buffer_out
      → d.proc_msg_read_pos ≤ buffer_size
      → procfs_read_callback n 0 d ≡ some (0, [], d)
  at_end d n e h k =
      let here : d.proc_msg_read_pos + 0 ≡ d.proc_msg_read_pos = omega arith in
      let run =
        read_result d n 0 [] e (read_at_nothing d.proc_msg_read_pos d.proc_buffer_out h)
          (omega arith) in
      rw here at run

  -- The write and the read, with the state that they leave.
  pub write-read :
      (d : Converter) (s : List ℕ) (n : ℕ)
      → Fits s d
      → length s ≤ n
      → (after : List ℕ) × (procfs_write_callback toupper s 0 d
          ≡ some (length s, written d s (converted toupper d.active_conversion_mode s ++ after)))
        × (procfs_read_callback n 0
              (written d s (converted toupper d.active_conversion_mode s ++ after))
            ≡ some (
              length s,
              converted toupper d.active_conversion_mode s,
              record (written d s (converted toupper d.active_conversion_mode s ++ after)) {
                proc_msg_read_pos = 0 + length s;
              },
            ))
        × (length (converted toupper d.active_conversion_mode s ++ after)
            ≡ length d.proc_buffer_out)
  write-read d s n fits h =
      let (after, run, size) = write_whole d s fits in
      let text = converted toupper d.active_conversion_mode s in
      let len = length-converted toupper d.active_conversion_mode s in
      let d1 = written d s (text ++ after) in
      let all : (if ltb (unread d1) n then unread d1 else n) ≡ length s =
        ground (arith, fits.short) in
      let bytes : read_at (text ++ after) 0 (length s) ≡ some text =
        rw (← len) (read_at-append text after) in
      (after, run, read_result d1 n (length s) text all bytes (omega (arith, fits.short)), size)

  -- A short message without a 0 byte, written as a whole into a buffer with a 0 behind it: the write reports the
  -- length, the next read with enough room gets the message converted by the mode, with no byte more
  -- or less, and the read after that gets nothing.
  pub procfs_write_callback-read :
      (d : Converter) (s : List ℕ) (n : ℕ)
      → Fits s d
      → length s ≤ n
      → (d1 : Converter) × (d2 : Converter) × (procfs_write_callback toupper s 0 d
          ≡ some (length s, d1))
        × (procfs_read_callback n 0 d1
            ≡ some (length s, converted toupper d.active_conversion_mode s, d2))
        × (procfs_read_callback n 0 d2 ≡ some (0, [], d2))
  procfs_write_callback-read d s n fits h =
      let (after, run, bytes, size) = write-read d s n fits h in
      let text = converted toupper d.active_conversion_mode s in
      let len = length-converted toupper d.active_conversion_mode s in
      let d1 = written d s (text ++ after) in
      let d2 = record d1 { proc_msg_read_pos = 0 + length s } in
      let rest : (if ltb (unread d2) n then unread d2 else n) ≡ 0 = ground (arith, fits.short) in
      (
        d1,
        d2,
        run,
        bytes,
        at_end d2 n rest (omega (arith, length-append text after)) (omega (arith, fits.short)),
      )
