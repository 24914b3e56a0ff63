-- ===== src/Currency/Texts.antt =====
-- The text of the factor in /sys: what is stored is shown.
use mathlib.Core.Path.{fun_ext}
use embedded_basecamp.Prelude.{
  ℕ, zero, suc, ◌+◌, ◌<◌, ◌≤◌, ◌≡◌, refl, ap, ◌∙◌, true, false, some, List, [], ◌∷◌, arith, ◌==◌,
  length,
}
use embedded_basecamp.Prelude.Int.{ℤ, pos, fits_int, times_ℤ}
use embedded_basecamp.Prelude.Partial.{◌>>=◌}
use embedded_basecamp.Currency.{
  Converter, len_msg, strncpy, message, c_string, currency_factor_store, currency_factor_show,
}
use embedded_basecamp.Currency.Conversions.{currency_factor_store-kept}

-- A text without a 0 in it.
abbrev pub NoZero : List ℕ → Type 0
NoZero [] = Unit
NoZero (t ∷ ts) = (0 < t) × NoZero ts

c_string-message :
    (text : List ℕ) (n : ℕ) (f : ℕ → ℕ)
    → NoZero text
    → length text < n
    → c_string n (message text (length text) f) ≡ some text
unfolding c_string strncpy
c_string-message text zero f z h = absurd (omega arith)
c_string-message [] (suc n) f z h = refl
c_string-message (t ∷ ts) (suc n) f z h =
    let whole : ℕ → ℕ = message (t ∷ ts) (suc (length ts)) f in
    let first : whole 0 ≡ t = ground arith in
    let some_byte : (t == 0) ≡ false = ground arith in
    let shift : (λ i. whole (suc i)) ≡ message ts (length ts) (λ i. f (suc i)) =
      fun_ext (λ i. ground arith) in
    let rest = ap (c_string n) shift ∙ c_string-message ts n (λ i. f (suc i)) z.1 (omega arith) in
    rw (first, some_byte, rest) refl

-- If the factor is positive and the last value, in hundredths, fits an int: a text of at most 160
-- bytes, without a 0 in it, is stored without a fault, and the next read of the file shows exactly it,
-- whether it is a number or not.
pub currency_factor_show-store :
    (format : ℤ → ℤ → List ℕ) (kstrtos32 : (ℕ → ℕ) → ℤ) (text : List ℕ) (n : ℕ) (c : Converter)
    → NoZero text
    → length text ≤ len_msg
    → c.conversion_factor ≡ pos (suc n)
    → fits_int (times_ℤ c.last_converted_value_request 100) ≡ true
    → (c' : Converter) × (currency_factor_store format kstrtos32 text (length text) c
        ≡ some (length text, c'))
      × (currency_factor_show c' ≡ some (length text, text))
unfolding currency_factor_show
currency_factor_show-store format kstrtos32 text n c z short factor fits =
    let (c', run, above, same, bytes) =
      currency_factor_store-kept format kstrtos32 text (length text) n c short factor fits in
    (
      c',
      run,
      ap (λ f. c_string (len_msg + 1) f >>= λ cs. some (length cs, cs)) bytes
          ∙ rw (c_string-message text (len_msg + 1) c.buf_msg z (omega arith)) refl,
    )
