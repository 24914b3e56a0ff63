-- ===== src/Currency.antt =====
-- The currency converter of task5/part02: the conversion (currency_conveter.c), its entry in /proc
-- (procfs_handler.c), its factor in /sys (sysfs_handler.c), and the callbacks that join them
-- (module_main.c). A signed overflow, a division by 0 and a write out of a buffer are faults.
pub mod Conversions
pub mod Texts
pub mod Life
mod Examples
use embedded_basecamp.Prelude.{
  ℕ, zero, suc, ◌+◌, ◌-◌, ◌*◌, ◌%◌, ◌^◌, Bool, true, false, Option, none, some, List, [], ◌∷◌, ltb,
  leb, ◌==◌, if◌then◌else◌, length,
}
use embedded_basecamp.Prelude.Int.{ℤ, pos, negsuc, ltb_ℤ, eqb_ℤ, div_ℤ, rem_ℤ, times_ℤ, fits_int}
use embedded_basecamp.Prelude.Partial.{◌>>=◌}

-- The static variables after currency_converter_init: the callbacks are registered.
pub record Converter : Type 0 where
  pub conversion_factor : ℤ
  pub last_converted_value_request : ℤ
  pub proc_buffer : ℕ → ℕ
  pub proc_msg_length : ℕ
  pub proc_msg_read_pos : ℕ
  pub buf_msg : ℕ → ℕ

abbrev pub buffer_size : ℕ
buffer_size = 40

abbrev pub len_msg : ℕ
len_msg = 160

-- to_convert * 100 / conversion_factor. Only a module parameter can make the factor negative: that
-- is left out, and is a fault here like a factor of 0.
unfoldable pub conversion_result : (to_convert factor : ℤ) → Option ℤ
conversion_result to_convert (pos (suc n)) =
    if fits_int (times_ℤ to_convert 100)
    then some (div_ℤ (times_ℤ to_convert 100) (suc n))
    else none
conversion_result to_convert _ = none

-- A text laid into a buffer of `size` bytes by snprintf, with a 0 behind it.
unfoldable pub laid : (size : ℕ) → List ℕ → (ℕ → ℕ) → ℕ → ℕ
laid zero cs f k = f k
laid (suc zero) cs f k = if k == 0 then 0 else f k
laid (suc size) [] f k = if k == 0 then 0 else f k
laid (suc size) (c ∷ cs) f zero = c
laid (suc size) (c ∷ cs) f (suc k) = laid size cs (λ i. f (suc i)) k

-- The positions of the bytes that reach the caller, and how many: the wrap-around is that of size_t.
unfoldable pub procfs_read_callback : (n left : ℕ) → Converter → ℕ × ℕ × Converter
procfs_read_callback n left c =
    let unread = (c.proc_msg_length + 2 ^ 64 - c.proc_msg_read_pos) % 2 ^ 64 in
    let m = (if ltb unread n then unread else n) - left in
    (c.proc_msg_read_pos, m, record c { proc_msg_read_pos = (c.proc_msg_read_pos + m) % 2 ^ 64 })

-- strncpy: the text, then 0 up to `n` bytes.
unfoldable pub strncpy : List ℕ → ℕ → (ℕ → ℕ) → ℕ → ℕ
strncpy text zero f k = f k
strncpy [] (suc n) f zero = 0
strncpy [] (suc n) f (suc k) = strncpy [] n (λ i. f (suc i)) k
strncpy (t ∷ ts) (suc n) f zero = t
strncpy (t ∷ ts) (suc n) f (suc k) = strncpy ts n (λ i. f (suc i)) k

abbrev pub message : List ℕ → ℕ → (ℕ → ℕ) → ℕ → ℕ
message text count f k = if k == count then 0 else strncpy text count f k

-- `format` is what snprintf makes of "%d.%d\n" and two numbers; `kstrtos32` is what the kernel's
-- parser leaves in a variable that is 0, for the bytes of a buffer.
module _ (format : ℤ → ℤ → List ℕ) (kstrtos32 : (ℕ → ℕ) → ℤ) where
  unfoldable pub conversion_result_ready : (full remainder : ℤ) → Converter → Converter
  conversion_result_ready full remainder c = record c {
    proc_buffer = laid buffer_size (format full remainder) c.proc_buffer;
  }

  unfoldable pub convert_currency : ℤ → Converter → Option Converter
  convert_currency to_convert c = do
    result ← conversion_result to_convert c.conversion_factor
    some (conversion_result_ready (div_ℤ result 100) (rem_ℤ result 100) c)

  unfoldable pub conversion_factor_changed_handler : ℤ → Converter → Option Converter
  conversion_factor_changed_handler new_factor c =
      convert_currency c.last_converted_value_request (record c { conversion_factor = new_factor })

  unfoldable pub handle_procfs_data_arrived : Converter → Option Converter
  handle_procfs_data_arrived c = do
    let new_value = kstrtos32 c.proc_buffer
    c' ← convert_currency new_value c
    some (record c' { last_converted_value_request = new_value })

  -- `left` is what copy_from_user returns. The result is the number that the function returns.
  unfoldable pub procfs_write_callback :
      (buffer : ℕ → ℕ) (n left : ℕ) → Converter → Option (ℕ × Converter)
  procfs_write_callback buffer n left c = do
    let msg_length = if ltb buffer_size n then buffer_size else n
    let bytes : ℕ → ℕ = λ k.
        if ltb k (msg_length - left)
        then buffer k
        else if ltb k buffer_size
        then 0
        else c.proc_buffer k
    c' ← handle_procfs_data_arrived (record c {
      proc_buffer = bytes;
      proc_msg_length = msg_length - left;
      proc_msg_read_pos = 0;
    })
    some (n, c')

  -- `text` is the caller's string up to its 0. strncpy writes exactly `count` bytes into the
  -- LEN_MSG + 1 of buf_msg, and one more byte is set behind them.
  unfoldable pub currency_factor_store :
      (text : List ℕ) (count : ℕ) → Converter → Option (ℕ × Converter)
  currency_factor_store text count c =
      if leb count len_msg
      then (do
        let bytes = message text count c.buf_msg
        let c1 = record c { buf_msg = bytes }
        let factor = kstrtos32 bytes
        c2 ← if ltb_ℤ (pos 0) factor then conversion_factor_changed_handler factor c1 else some c1
        some (count, c2))
      else none

-- The bytes up to the first 0 of the n bytes that may be read. Without one it is a fault.
unfoldable pub c_string : (n : ℕ) → (ℕ → ℕ) → Option (List ℕ)
c_string zero f = none
c_string (suc n) f =
    let rest = c_string n (λ i. f (suc i)) in
    if f 0 == 0 then some [] else (rest >>= λ cs. some (f 0 ∷ cs))

-- strcpy and strlen: the length, and the text in the caller's buffer.
unfoldable pub currency_factor_show : Converter → Option (ℕ × List ℕ)
currency_factor_show c = do text ← c_string (len_msg + 1) c.buf_msg; some (length text, text)
