-- ===== src/Currency/Conversions.antt =====
-- The converter: the number that it computes, and runs of its entries.
use embedded_basecamp.Prelude.{
  ℕ, zero, suc, ◌+◌, ◌-◌, ◌*◌, ◌/◌, ◌%◌, ◌^◌, ◌<◌, ◌≤◌, ◌≡◌, refl, true, some, List, arith, ltb,
  leb, if◌then◌else◌, Bool-cases, inl, inr,
}
use embedded_basecamp.Prelude.Int.{ℤ, pos, negsuc, ◌≤ℤ◌, ltb_ℤ, div_ℤ, rem_ℤ, times_ℤ, fits_int}
use embedded_basecamp.Currency.{
  Converter, buffer_size, len_msg, conversion_result, conversion_result_ready, convert_currency,
  conversion_factor_changed_handler, handle_procfs_data_arrived, procfs_write_callback,
  procfs_read_callback, currency_factor_store, message,
}

-- Of n units at a factor f + 1, where 100 * n fits an int, the two numbers that are reported are a full
-- part and a remainder below 100, which together are the hundredths of n / (f + 1), rounded down.
pub conversion_result-hundredths :
    (n f : ℕ)
    → n * 100 < 2 ^ 31
    → (full remainder : ℕ) × (result : ℤ) × (conversion_result (pos n) (pos (suc f)) ≡ some result)
      × (div_ℤ result 100 ≡ pos full)
      × (rem_ℤ result 100 ≡ pos remainder)
      × (remainder < 100)
      × ((full * 100 + remainder) * suc f ≤ n * 100)
      × (n * 100 < (full * 100 + remainder + 1) * suc f)
unfolding conversion_result
conversion_result-hundredths n f fits =
    let r : ℕ = n * 100 / suc f in
    let whole : r / 100 * 100 + r % 100 ≡ r = omega arith in
    let small : ltb (n * 100) (2 ^ 31) ≡ true = ground arith in
    (
      r / 100,
      r % 100,
      pos r,
      rw small,
      refl,
      refl,
      omega arith,
      rw whole (grind arith),
      rw whole (grind arith),
    )

-- The length that is kept of a write, and the buffer after it.
abbrev pub written : ℕ → ℕ
written n = if ltb buffer_size n then buffer_size else n

abbrev pub arrived : (buffer : ℕ → ℕ) (n : ℕ) → Converter → ℕ → ℕ
arrived buffer n c k =
    if ltb k (written n - 0) then buffer k else if ltb k buffer_size then 0 else c.proc_buffer k

positive_form : (z : ℤ) → ltb_ℤ (pos 0) z ≡ true → (m : ℕ) × (z ≡ pos (suc m))
positive_form (pos zero) h = absurd (ground arith)
positive_form (pos (suc m)) h = (m, refl)
positive_form (negsuc m) h = absurd (ground arith)

module _ (format : ℤ → ℤ → List ℕ) (kstrtos32 : (ℕ → ℕ) → ℤ) where
  convert_currency_total :
      (z : ℤ) (n : ℕ) (c : Converter)
      → c.conversion_factor ≡ pos (suc n)
      → fits_int (times_ℤ z 100) ≡ true
      → (full remainder : ℤ) × (convert_currency format kstrtos32 z c
          ≡ some (conversion_result_ready format kstrtos32 full remainder c))
  unfolding convert_currency conversion_result
  convert_currency_total z n c factor fits = (
    div_ℤ (div_ℤ (times_ℤ z 100) (suc n)) 100,
    rem_ℤ (div_ℤ (times_ℤ z 100) (suc n)) 100,
    rw (factor, fits),
  )

  -- The same, with what is kept of the text.
  pub currency_factor_store-kept :
      (text : List ℕ) (count n : ℕ) (c : Converter)
      → count ≤ len_msg
      → c.conversion_factor ≡ pos (suc n)
      → fits_int (times_ℤ c.last_converted_value_request 100) ≡ true
      → (c' : Converter) × (currency_factor_store format kstrtos32 text count c ≡ some (count, c'))
        × (pos 1 ≤ℤ c'.conversion_factor)
        × (c'.conversion_factor ≡ (
            if ltb_ℤ (pos 0) (kstrtos32 c'.buf_msg)
            then kstrtos32 c'.buf_msg
            else c.conversion_factor))
        × (c'.buf_msg ≡ message text count c.buf_msg)
  unfolding currency_factor_store conversion_factor_changed_handler conversion_result_ready
  currency_factor_store-kept text count n c short factor fits =
      let bytes : ℕ → ℕ = message text count c.buf_msg in
      let z : ℤ = kstrtos32 bytes in
      let ok : leb count len_msg ≡ true = ground arith in
      elim (Bool-cases (ltb_ℤ (pos 0) z)) [
        | inl h ↦
            let (m, e) = positive_form z h in
            let c1 : Converter = record c { buf_msg = bytes; conversion_factor = z } in
            let (full, remainder, run) =
              convert_currency_total c.last_converted_value_request m c1 e fits in
            (
              conversion_result_ready format kstrtos32 full remainder c1,
              rw (ok, h, run),
              ground arith,
              rw h,
              refl,
            )
        | inr h ↦ (record c { buf_msg = bytes }, rw (ok, h), rw factor (omega arith), rw h, refl)
      ]

  -- If the factor is positive and the last value, in hundredths, fits an int, then a text that fits
  -- buf_msg is stored without a fault, and the factor is positive still: it is the number of the text
  -- if that is positive, and as before if not.
  pub currency_factor_store-positive :
      (text : List ℕ) (count n : ℕ) (c : Converter)
      → count ≤ len_msg
      → c.conversion_factor ≡ pos (suc n)
      → fits_int (times_ℤ c.last_converted_value_request 100) ≡ true
      → (c' : Converter) × (currency_factor_store format kstrtos32 text count c ≡ some (count, c'))
        × (pos 1 ≤ℤ c'.conversion_factor)
        × (c'.conversion_factor ≡ (
            if ltb_ℤ (pos 0) (kstrtos32 c'.buf_msg)
            then kstrtos32 c'.buf_msg
            else c.conversion_factor))
  currency_factor_store-positive text count n c short factor fits =
      let (c', run, above, same, bytes) =
        currency_factor_store-kept text count n c short factor fits in
      (c', run, above, same)

  -- With a positive factor and a value that fits, a write ends, and the value is remembered. A read then
  -- delivers, from the start of the buffer, as many bytes as were written, at most 40, whatever the
  -- length of the result's text.
  pub procfs_read_callback-write :
      (buffer : ℕ → ℕ) (n k f : ℕ) (c : Converter)
      → n < 2 ^ 32
      → c.conversion_factor ≡ pos (suc f)
      → fits_int (times_ℤ (kstrtos32 (arrived buffer n c)) 100) ≡ true
      → (c' : Converter) × (procfs_write_callback format kstrtos32 buffer n 0 c ≡ some (n, c'))
        × (c'.last_converted_value_request ≡ kstrtos32 (arrived buffer n c))
        × ((procfs_read_callback k 0 c').0 ≡ 0)
        × ((procfs_read_callback k 0 c').1 ≡ (if ltb (written n) k then written n else k))
  unfolding procfs_write_callback procfs_read_callback handle_procfs_data_arrived
      conversion_result_ready
  procfs_read_callback-write buffer n k f c small factor fits =
      let c1 : Converter = record c {
        proc_buffer = arrived buffer n c;
        proc_msg_length = written n - 0;
        proc_msg_read_pos = 0;
      } in
      let (full, remainder, run) =
        convert_currency_total (kstrtos32 (arrived buffer n c)) f c1 factor fits in
      let length_ok : (written n - 0 + 2 ^ 64 - 0) % 2 ^ 64 ≡ written n = ground arith in
      (
        record (conversion_result_ready format kstrtos32 full remainder c1) {
          last_converted_value_request = kstrtos32 (arrived buffer n c);
        },
        rw run,
        refl,
        refl,
        rw length_ok (ground arith),
      )
