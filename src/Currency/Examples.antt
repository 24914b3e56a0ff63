-- ===== src/Currency/Examples.antt =====
-- The theorems on the converter at concrete inputs.
use embedded_basecamp.Prelude.{ℕ, ◌≡◌, refl, true, false, some, List, [], ◌∷◌, arith}
use embedded_basecamp.Prelude.Int.{ℤ, pos}
use embedded_basecamp.Currency.{Converter, currency_factor_store, currency_factor_show}
use embedded_basecamp.Currency.Texts.{currency_factor_show-store}
use embedded_basecamp.Currency.Life.{
  no_holdings, Replies, currency_converter_init, is_fatal, Outcome, currency_converter_init-Outcome,
}

abbrev no_text : ℤ → ℤ → List ℕ
no_text full remainder = []

-- A parser that answers 28.
abbrev always : (ℕ → ℕ) → ℤ
always bytes = pos 28

abbrev converter : Converter
converter = record {
  conversion_factor = pos 31;
  last_converted_value_request = pos 100;
  proc_buffer = λ _. 0;
  proc_msg_length = 0;
  proc_msg_read_pos = 0;
  buf_msg = λ _. 0;
}

-- A kernel that cannot make the directory in /proc.
abbrev refusing : Replies
refusing = record {
  kmalloc = true;
  proc_mkdir = false;
  proc_create = false;
  class_create = true;
  class_create_file = pos 0;
}

currency_converter_init-Outcome_example :
    Outcome (is_fatal refusing) (currency_converter_init refusing no_holdings)
currency_converter_init-Outcome_example = currency_converter_init-Outcome refusing

-- A text that is no number for the parser.
abbrev word : List ℕ
word = 120 ∷ 10 ∷ []

currency_factor_show-store_example :
    (c' : Converter) × (currency_factor_store no_text always word 2 converter ≡ some (2, c'))
    × (currency_factor_show c' ≡ some (2, word))
currency_factor_show-store_example =
    currency_factor_show-store no_text always word 30 converter (omega arith) (omega arith) refl
      refl
