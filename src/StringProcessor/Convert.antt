-- ===== src/StringProcessor/Convert.antt =====
-- The conversions, of exercise10/part03/strings_processor.c.
use embedded_basecamp.Prelude.{
  ℕ, zero, suc, ◌+◌, Option, none, some, Bool, List, [], ◌∷◌, ◌++◌, ltb, leb, ◌==◌, ◌&&◌,
  if◌then◌else◌, length, get_elem?, map,
}
use embedded_basecamp.Prelude.Int.{ℤ, pos, negsuc}
use embedded_basecamp.Prelude.Partial.{◌>>=◌}
use embedded_basecamp.Bytes.{write_at, write_all, c_string}
use embedded_basecamp.StringProcessor.{buffer_size}

-- The loop with `left` rounds to go, at round i: source[source_string_len - i - 1] is byte number
-- left - 1.
unfoldable pub reverse_token_in :
    (left i : ℕ) (source : List ℕ) (write_pos : ℕ) → List ℕ → Option (List ℕ)
reverse_token_in zero i source write_pos destination = some destination
reverse_token_in (suc left) i source write_pos destination = do
  c ← get_elem? source left
  destination' ← write_at destination (write_pos + i) c
  reverse_token_in left (i + 1) source write_pos destination'

-- Neither pointer is NULL at the call.
unfoldable pub reverse_token : (source : List ℕ) (write_pos : ℕ) → List ℕ → Option (List ℕ)
reverse_token source write_pos destination =
    reverse_token_in (length source) 0 source write_pos destination

abbrev pub push : ℕ → List (List ℕ) → List (List ℕ)
push c [] = (c ∷ []) ∷ []
push c (w ∷ ws) = (c ∷ w) ∷ ws

abbrev pub space : ℕ
space = 32

-- What strsep(&rest, " ") returns, one call after the other, until it returns NULL.
unfoldable pub tokens : List ℕ → List (List ℕ)
tokens [] = [] ∷ []
tokens (c ∷ cs) = let rest = tokens cs in if c == space then [] ∷ rest else push c rest

unfoldable pub reverse_tokens : List (List ℕ) → (write_position : ℕ) → List ℕ → Option (List ℕ)
reverse_tokens [] write_position output = some output
reverse_tokens (t ∷ ts) write_position output = do
  output1 ← reverse_token t write_position output
  output2 ← write_at output1 (write_position + length t) space
  reverse_tokens ts (write_position + length t + 1) output2

-- output_buffer[i] = '\0'
abbrev pub end_at : ℕ → List ℕ → Option (List ℕ)
end_at i output = write_at output i 0

-- What follows strlen(incoming_string).
abbrev pub reverse_source : (processing : Bool) (source : List ℕ) → List ℕ → Option (List ℕ)
reverse_source processing source output =
    if ltb buffer_size (length source + 1)
    then some output
    else (if processing
        then reverse_tokens (tokens source) 0 output >>= end_at (length source + 1)
        else none)

-- `processing` says whether string_processing_buffer is allocated. It has room for a string that
-- passes the test, and nothing reads it after the call.
unfoldable pub reverse_string_words :
    (processing : Bool) (incoming : List ℕ) → List ℕ → Option (List ℕ)
reverse_string_words processing incoming output = do
  source ← c_string incoming
  reverse_source processing source output

abbrev pub isdigit : ℕ → Bool
isdigit c = leb 48 c && leb c 57

-- `toupper` is the kernel's.
abbrev pub to_write : (toupper : ℕ → ℕ) → ℕ → ℕ
to_write toupper c = if isdigit c then c else toupper c

abbrev pub upper_source : (toupper : ℕ → ℕ) (source : List ℕ) → List ℕ → Option (List ℕ)
upper_source toupper source output =
    if ltb buffer_size (length source + 1)
    then some output
    else write_all (map (to_write toupper) source) 0 output >>= end_at (length source + 1)

unfoldable pub to_upper_string : (toupper : ℕ → ℕ) → (incoming : List ℕ) → List ℕ → Option (List ℕ)
to_upper_string toupper incoming output = do
  source ← c_string incoming
  upper_source toupper source output

-- strcpy
unfoldable pub copy_string_to_output : (incoming : List ℕ) → List ℕ → Option (List ℕ)
copy_string_to_output incoming output = do
  source ← c_string incoming
  write_all (source ++ 0 ∷ []) 0 output

-- -ENOMEM
abbrev pub enomem : ℤ
enomem = negsuc 11

-- `block` is the first byte of the memory that kmalloc returns, if it does: the test reads that byte
-- in place of the pointer. The result is the value returned.
unfoldable pub init_converter_module : (block : Option ℕ) → Option ℤ
init_converter_module block = do first ← block; some (if first == 0 then enomem else pos 0)
