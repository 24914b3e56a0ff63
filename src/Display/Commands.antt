-- ===== src/Display/Commands.antt =====
-- The table of commands of final_task/display_driver/gc9a01.c, init_display_internal that sends it,
-- and the start and end of the display.
pub mod Protocol
use embedded_basecamp.Prelude.{
  ℕ, zero, suc, ◌-◌, Bool, true, false, Option, none, some, List, [], ◌∷◌, if◌then◌else◌, ◌==◌,
}
use embedded_basecamp.Prelude.Int.{ℤ, pos, negsuc, eqb_ℤ}
use embedded_basecamp.Prelude.Partial.{◌>>=◌}
use embedded_basecamp.Prelude.Memory.{is_some}
use embedded_basecamp.Display.{
  Wire, mdelay, kfree, Frame, Display, emit, lcd_pin_reset, lcd_pin_dc, gpio_module_init_out,
  gpio_module_free, gpio_module_set_value, init_spi_wrapper, deinit_spi_wrapper, lcd_write_command,
  lcd_write_data,
}

abbrev pub commands_transactions_count : ℕ
commands_transactions_count = 59

-- command, number of arguments, delay, arguments
abbrev pub commands : List ℕ
commands =
    0xFE ∷ 0 ∷ 0 ∷ 0xEF ∷ 0 ∷ 0 ∷ 0xEB ∷ 1 ∷ 0 ∷ 0x14 ∷ 0xFE ∷ 0 ∷ 0 ∷ 0xEF ∷ 0 ∷ 0 ∷ 0xEB ∷ 1 ∷ 0
    ∷ 0x14 ∷ 0xFE ∷ 0 ∷ 0 ∷ 0xEF ∷ 0 ∷ 0 ∷ 0xEB ∷ 1 ∷ 0 ∷ 0x14 ∷ 0xFE ∷ 0 ∷ 0 ∷ 0xEF ∷ 0 ∷ 0 ∷ 0x84
    ∷ 1 ∷ 0 ∷ 0x40 ∷ 0x85 ∷ 1 ∷ 0 ∷ 0xF1 ∷ 0x86 ∷ 1 ∷ 0 ∷ 0x98 ∷ 0x87 ∷ 1 ∷ 0 ∷ 0x28 ∷ 0x88 ∷ 1 ∷ 0
    ∷ 0x0A ∷ 0x89 ∷ 1 ∷ 0 ∷ 0x21 ∷ 0x8A ∷ 1 ∷ 0 ∷ 0x00 ∷ 0x8B ∷ 1 ∷ 0 ∷ 0x80 ∷ 0x8C ∷ 1 ∷ 0 ∷ 0x01
    ∷ 0x8D ∷ 1 ∷ 0 ∷ 0x00 ∷ 0x8E ∷ 1 ∷ 0 ∷ 0xDF ∷ 0x8F ∷ 1 ∷ 0 ∷ 0x52 ∷ 0xB6 ∷ 1 ∷ 0 ∷ 0x20 ∷ 0x36
    ∷ 1 ∷ 0 ∷ 0x48 ∷ 0x3A ∷ 1 ∷ 0 ∷ 0x05 ∷ 0x90 ∷ 4 ∷ 0 ∷ 0x08 ∷ 0x08 ∷ 0x08 ∷ 0x08 ∷ 0xBD ∷ 1 ∷ 0
    ∷ 0x06 ∷ 0xA6 ∷ 1 ∷ 0 ∷ 0x74 ∷ 0xBF ∷ 1 ∷ 0 ∷ 0x1C ∷ 0xA7 ∷ 1 ∷ 0 ∷ 0x45 ∷ 0xA9 ∷ 1 ∷ 0 ∷ 0xBB
    ∷ 0xB8 ∷ 1 ∷ 0 ∷ 0x63 ∷ 0xE8 ∷ 1 ∷ 0 ∷ 0x34 ∷ 0xFF ∷ 3 ∷ 0 ∷ 0x60 ∷ 0x01 ∷ 0x04 ∷ 0x74 ∷ 7 ∷ 0
    ∷ 0x10 ∷ 0x75 ∷ 0x80 ∷ 0x00 ∷ 0x00 ∷ 0x4E ∷ 0x00 ∷ 0xC3 ∷ 5 ∷ 0 ∷ 0x14 ∷ 0xC4 ∷ 0x14 ∷ 0xC9
    ∷ 0x25 ∷ 0xBE ∷ 1 ∷ 0 ∷ 0x11 ∷ 0xBC ∷ 1 ∷ 0 ∷ 0x00 ∷ 0xE1 ∷ 2 ∷ 0 ∷ 0x10 ∷ 0x0e ∷ 0xDF ∷ 3 ∷ 0
    ∷ 0x21 ∷ 0x0c ∷ 0x02 ∷ 0xED ∷ 2 ∷ 0 ∷ 0x1B ∷ 0x0B ∷ 0xAE ∷ 5 ∷ 0 ∷ 0x77 ∷ 0xCB ∷ 0x02 ∷ 0xCD
    ∷ 0x63 ∷ 0x70 ∷ 9 ∷ 0 ∷ 0x07 ∷ 0x09 ∷ 0x04 ∷ 0x0e ∷ 0x0f ∷ 0x09 ∷ 0x07 ∷ 0x08 ∷ 0x03 ∷ 0xf0 ∷ 6
    ∷ 0 ∷ 0x45 ∷ 0x09 ∷ 0x08 ∷ 0x08 ∷ 0x26 ∷ 0x2a ∷ 0xf1 ∷ 6 ∷ 0 ∷ 0x43 ∷ 0x70 ∷ 0x72 ∷ 0x36 ∷ 0x37
    ∷ 0x6f ∷ 0xf2 ∷ 6 ∷ 0 ∷ 0x45 ∷ 0x09 ∷ 0x08 ∷ 0x08 ∷ 0x26 ∷ 0x2a ∷ 0xf3 ∷ 6 ∷ 0 ∷ 0x43 ∷ 0x70
    ∷ 0x72 ∷ 0x36 ∷ 0x37 ∷ 0x6f ∷ 0x62 ∷ 12 ∷ 0 ∷ 0x18 ∷ 0x0d ∷ 0x71 ∷ 0xED ∷ 0x70 ∷ 0x70 ∷ 0x18
    ∷ 0x0F ∷ 0x71 ∷ 0xEF ∷ 0x70 ∷ 0x70 ∷ 0x63 ∷ 12 ∷ 0 ∷ 0x18 ∷ 0x11 ∷ 0x71 ∷ 0xf1 ∷ 0x70 ∷ 0x70
    ∷ 0x18 ∷ 0x13 ∷ 0x71 ∷ 0xf3 ∷ 0x70 ∷ 0x70 ∷ 0x64 ∷ 7 ∷ 0 ∷ 0x28 ∷ 0x29 ∷ 0xF1 ∷ 0x01 ∷ 0xf1
    ∷ 0x00 ∷ 0x07 ∷ 0x66 ∷ 10 ∷ 0 ∷ 0x3c ∷ 0x00 ∷ 0xCD ∷ 0x67 ∷ 0x45 ∷ 0x45 ∷ 0x10 ∷ 0x00 ∷ 0x00
    ∷ 0x00 ∷ 0x67 ∷ 10 ∷ 0 ∷ 0x00 ∷ 0x3c ∷ 0x00 ∷ 0x00 ∷ 0x00 ∷ 0x01 ∷ 0x54 ∷ 0x10 ∷ 0x32 ∷ 0x98
    ∷ 0x74 ∷ 7 ∷ 0 ∷ 0x10 ∷ 0x85 ∷ 0x80 ∷ 0x00 ∷ 0x00 ∷ 0x4e ∷ 0x00 ∷ 0x98 ∷ 2 ∷ 0 ∷ 0x3e ∷ 0x07
    ∷ 0x35 ∷ 0 ∷ 0 ∷ 0x21 ∷ 0 ∷ 0 ∷ 0x11 ∷ 0 ∷ 120 ∷ 0x29 ∷ 0 ∷ 120 ∷ []

-- The n bytes at the pointer, and what is behind them; a fault past the end of the table.
unfoldable pub read_bytes : ℕ → List ℕ → Option (List ℕ × List ℕ)
read_bytes zero p = some ([], p)
read_bytes (suc n) [] = none
read_bytes (suc n) (b ∷ p) = do (bs, rest) ← read_bytes n p; some (b ∷ bs, rest)

abbrev pub pause : ℕ → Display → Display
pause delay d = if delay == 0 then d else emit (mdelay delay) d

unfoldable pub send_command :
    (cmd num_args delay : ℕ) → List ℕ → Display → Option (List ℕ × Display)
send_command cmd num_args delay p d =
    if num_args == 0 then some (p, pause delay (lcd_write_command cmd d)) else (do
      (args, rest) ← read_bytes num_args p
      some (rest, pause delay (lcd_write_data args (lcd_write_command cmd d))))

-- n transactions are left.
unfoldable pub send_commands : (n : ℕ) → List ℕ → Display → Option Display
send_commands zero p d = some d
send_commands (suc n) p d = do
  (head, p1) ← read_bytes 3 p
  elim head [
    | cmd ∷ num_args ∷ delay ∷ [] ↦ do
      (rest, d1) ← send_command cmd num_args delay p1 d
      send_commands n rest d1
    | _ ↦ none
  ]

unfoldable pub init_display_internal : Display → Option Display
init_display_internal d = send_commands commands_transactions_count commands d

unfoldable pub lcd_reset : Display → Display
lcd_reset d =
    gpio_module_set_value lcd_pin_reset 1
      (emit (mdelay 5000) (gpio_module_set_value lcd_pin_reset 0 d))

-- `master` and `created` are as in `init_spi_wrapper`, `block` is what kmalloc returns.
unfoldable pub init_display :
    (master created : Bool) → (block : Option Frame) → ℤ → ℤ → Display → Option (ℤ × Display)
init_display master created block bus chip d =
    let d1 = gpio_module_init_out lcd_pin_dc (gpio_module_init_out lcd_pin_reset d) in
    let (code, d2) = init_spi_wrapper master created bus chip (lcd_reset d1) in
    if eqb_ℤ code (pos 0)
    then elim block [
      | none ↦ some (negsuc 0, record d2 { frame_buffer = none })
      | some f ↦ do
        d3 ← init_display_internal (record d2 { frame_buffer = some f })
        some (pos 0, d3)
    ]
    else some (negsuc 0, d2)

-- frame_buffer keeps its value behind kfree.
unfoldable pub lcd_deinit : Display → Display
lcd_deinit d =
    let d1 = if is_some d.frame_buffer then emit kfree d else d in
    gpio_module_free lcd_pin_dc (gpio_module_free lcd_pin_reset (deinit_spi_wrapper d1))
