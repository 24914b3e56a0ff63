-- ===== src/StringProcessor/Buffers.antt =====
-- The buffers of the converter: their sizes under writes and reads, and the write past the end.
use embedded_basecamp.Prelude.{
  ℕ, zero, suc, ◌+◌, ◌-◌, ◌%◌, ◌^◌, ◌≤◌, ◌≡◌, refl, ap, ◌∙◌, subst, Bool, Option, none, some, List,
  [], ◌∷◌, ◌++◌, arith, length, get_elem?, take, drop, map, ltb, Bool-cases, Option-cases, inl, inr,
  if◌then◌else◌, length-set, length-take, get_elem?,
}
use embedded_basecamp.Prelude.Partial.{◌>>=◌, >>=-eq-some}
use embedded_basecamp.Bytes.{length-drop, length-laid, write_at, write_all, read_at, c_string, laid}
use embedded_basecamp.StringProcessor.{
  ConversionMode, none_conversion, flip, uppercase, buffer_size,
}
use embedded_basecamp.StringProcessor.Convert.{
  reverse_token_in, reverse_token, tokens, reverse_tokens, end_at, reverse_source,
  reverse_string_words, to_write, upper_source, to_upper_string, copy_string_to_output, space,
}
use embedded_basecamp.StringProcessor.Device.{
  Converter, unread, procfs_read_callback, convert, procfs_write_callback,
}

write_at-length :
    (b : List ℕ) (i v : ℕ) (b' : List ℕ) → write_at b i v ≡ some b' → length b' ≡ length b
unfolding write_at
write_at-length b i v b' h = ground (arith, length-set b i v)

write_all-length :
    (cs : List ℕ) (i : ℕ) (b b' : List ℕ) → write_all cs i b ≡ some b' → length b' ≡ length b
unfolding write_all
write_all-length [] i b b' h = ground arith
write_all-length (c ∷ cs) i b b' h =
    let (b1, run, rest) = >>=-eq-some (write_at b i c) (write_all cs (i + 1)) h in
    write_all-length cs (i + 1) b1 b' rest ∙ write_at-length b i c b1 run

reverse_token_in-length :
    (left i : ℕ) (t : List ℕ) (pos : ℕ) (b b' : List ℕ)
    → reverse_token_in left i t pos b ≡ some b'
    → length b' ≡ length b
unfolding reverse_token_in
reverse_token_in-length zero i t pos b b' h = ground arith
reverse_token_in-length (suc left) i t pos b b' h = elim (Option-cases (get_elem? t left)) [
  | inl k ↦ absurd (ground arith)
  | inr (c, k) ↦ elim (Option-cases (write_at b (pos + i) c)) [
    | inl w ↦ absurd (ground arith)
    | inr (b1, w) ↦
        let rest : reverse_token_in left (i + 1) t pos b1 ≡ some b' = rw (k, w) at h in
        reverse_token_in-length left (i + 1) t pos b1 b' rest ∙ write_at-length b (pos + i) c b1 w
  ]
]

reverse_tokens-length :
    (ts : List (List ℕ)) (pos : ℕ) (b b' : List ℕ)
    → reverse_tokens ts pos b ≡ some b'
    → length b' ≡ length b
unfolding reverse_tokens reverse_token
reverse_tokens-length [] pos b b' h = ground arith
reverse_tokens-length (t ∷ ts) pos b b' h =
    elim (Option-cases (reverse_token_in (length t) 0 t pos b)) [
      | inl k ↦ absurd (ground arith)
      | inr (b1, k) ↦ elim (Option-cases (write_at b1 (pos + length t) space)) [
        | inl w ↦ absurd (ground arith)
        | inr (b2, w) ↦
            let rest : reverse_tokens ts (pos + length t + 1) b2 ≡ some b' = rw (k, w) at h in
            reverse_tokens-length ts (pos + length t + 1) b2 b' rest
            ∙ write_at-length b1 (pos + length t) space b2 w
            ∙ reverse_token_in-length (length t) 0 t pos b b1 k
      ]
    ]

reverse_source-length :
    (p : Bool) (s b b' : List ℕ) → reverse_source p s b ≡ some b' → length b' ≡ length b
reverse_source-length p s b b' h = elim (Bool-cases (ltb buffer_size (length s + 1))) [
  | inl k ↦ ground arith
  | inr k ↦ elim (Bool-cases p) [
    | inl q ↦
        let run : (reverse_tokens (tokens s) 0 b >>= end_at (length s + 1)) ≡ some b' =
          rw (k, q) at h in
        let (b1, first, last) =
          >>=-eq-some (reverse_tokens (tokens s) 0 b) (end_at (length s + 1)) run in
        write_at-length b1 (length s + 1) 0 b' last ∙ reverse_tokens-length (tokens s) 0 b b1 first
    | inr q ↦ absurd (ground arith)
  ]
]

-- The buffers have their size, and what is unread lies in them.
pub record IsValid (d : Converter) : Type 0 where
  pub size_in : length d.proc_buffer_in ≡ buffer_size
  pub size_out : length d.proc_buffer_out ≡ buffer_size
  pub unread_in : d.proc_msg_read_pos ≤ d.proc_msg_length
  pub message_in : d.proc_msg_length ≤ buffer_size

-- What an answer leaves.
abbrev left_by : Converter → Option (ℕ × Converter) → Converter
left_by d none = d
left_by d (some (n, d')) = d'

module _ (toupper : ℕ → ℕ) where
  upper_source-length :
      (s b b' : List ℕ) → upper_source toupper s b ≡ some b' → length b' ≡ length b
  upper_source-length s b b' h = elim (Bool-cases (ltb buffer_size (length s + 1))) [
    | inl k ↦ ground arith
    | inr k ↦
        let text = map (to_write toupper) s in
        let run : (write_all text 0 b >>= end_at (length s + 1)) ≡ some b' = rw k at h in
        let (b1, first, last) = >>=-eq-some (write_all text 0 b) (end_at (length s + 1)) run in
        write_at-length b1 (length s + 1) 0 b' last ∙ write_all-length text 0 b b1 first
  ]

  pub convert-length :
      (mode : ConversionMode) (d : Converter) (b' : List ℕ)
      → convert toupper mode d ≡ some b'
      → length b' ≡ length d.proc_buffer_out
  unfolding convert copy_string_to_output reverse_string_words to_upper_string
  convert-length none_conversion d b' h =
      let (s, first, last) = >>=-eq-some (c_string d.proc_buffer_in) _ h in
      write_all-length (s ++ 0 ∷ []) 0 d.proc_buffer_out b' last
  convert-length flip d b' h =
      let (s, first, last) = >>=-eq-some (c_string d.proc_buffer_in) _ h in
      reverse_source-length d.processing s d.proc_buffer_out b' last
  convert-length uppercase d b' h =
      let (s, first, last) = >>=-eq-some (c_string d.proc_buffer_in) _ h in
      upper_source-length s d.proc_buffer_out b' last

  -- A write that does not fault keeps the converter valid, whatever the message, the mode and the
  -- number of bytes that copy_from_user leaves.
  pub procfs_write_callback-IsValid :
      (message : List ℕ) (left n : ℕ) (d d' : Converter)
      → IsValid d
      → procfs_write_callback toupper message left d ≡ some (n, d')
      → IsValid d'
  unfolding procfs_write_callback
  procfs_write_callback-IsValid message left n d d' v h =
      let size = if ltb buffer_size (length message) then buffer_size else length message in
      let text = take (size - left) message in
      let d1 = record d {
        proc_buffer_in = laid text d.proc_buffer_in;
        proc_msg_length = size - left;
        proc_msg_read_pos = 0;
      } in
      let (out, run, last) = >>=-eq-some (convert toupper d.active_conversion_mode d1) _ h in
      let small : size ≤ buffer_size = ground arith in
      let short : length text ≤ buffer_size = omega (arith, length-take (size - left) message) in
      subst IsValid (ap (left_by d) last) (record {
        size_in = length-laid text d.proc_buffer_in (omega (arith, v.size_in)) ∙ v.size_in;
        size_out = convert-length d.active_conversion_mode d1 out run ∙ v.size_out;
        unread_in = omega arith;
        message_in = omega arith;
      })

readable :
    (d : Converter) (m : ℕ)
    → IsValid d
    → d.proc_msg_read_pos + m ≤ buffer_size
    → read_at d.proc_buffer_out d.proc_msg_read_pos m
      ≡ some (take m (drop d.proc_msg_read_pos d.proc_buffer_out))
unfolding read_at
readable d m v h = ground (arith, v.size_out)

-- A read of a valid converter does not fault; it answers at most what was asked for and what is
-- unread, and leaves a valid converter.
pub procfs_read_callback-IsValid :
    (n left : ℕ) (d : Converter)
    → IsValid d
    → (m : ℕ) × (bytes : List ℕ) × (d' : Converter) × (procfs_read_callback n left d
        ≡ some (m, bytes, d'))
      × (m ≤ n)
      × (length bytes ≡ m)
      × (d'.proc_msg_read_pos ≡ d.proc_msg_read_pos + m)
      × IsValid d'
unfolding procfs_read_callback
procfs_read_callback-IsValid n left d v =
    let m = (if ltb (unread d) n then unread d else n) - left in
    let rest : unread d ≡ d.proc_msg_length - d.proc_msg_read_pos =
      grind (arith, v.unread_in, v.message_in) in
    let asked : m ≤ n = ground arith in
    let fits : m ≤ d.proc_msg_length - d.proc_msg_read_pos = ground arith in
    let bytes = take m (drop d.proc_msg_read_pos d.proc_buffer_out) in
    let whole : length bytes ≡ m = omega (
      arith,
      length-take m (drop d.proc_msg_read_pos d.proc_buffer_out),
      length-drop d.proc_msg_read_pos d.proc_buffer_out,
      v.size_out,
      v.unread_in,
      v.message_in,
    ) in
    let inside : d.proc_msg_read_pos + m ≤ d.proc_msg_length = omega (arith, v.unread_in, fits) in
    let small : d.proc_msg_read_pos + m ≤ buffer_size = omega (arith, inside, v.message_in) in
    let pos : (d.proc_msg_read_pos + m) % 2 ^ 64 ≡ d.proc_msg_read_pos + m = grind (arith, small) in
    (
      m,
      bytes,
      record d { proc_msg_read_pos = (d.proc_msg_read_pos + m) % 2 ^ 64 },
      rw (readable d m v small) refl,
      asked,
      whole,
      pos,
      record {
        size_in = v.size_in;
        size_out = v.size_out;
        unread_in = rw pos inside;
        message_in = v.message_in;
      },
    )
