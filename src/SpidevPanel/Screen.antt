-- ===== src/SpidevPanel/Screen.antt =====
-- The drawing functions of task4/gc9a01.c, on the state of the user-space driver: the frame buffer and
-- the calls of the operating system so far. The loops that write into the frame buffer are, to the
-- letter, those of the kernel driver's gc9a01.c, so their functions are shared.
use embedded_basecamp.Prelude.{
  ℕ, zero, suc, ◌+◌, ◌*◌, ◌/◌, ◌%◌, Option, none, some, List, [], ◌∷◌, ◌++◌, ◌==◌, if◌then◌else◌,
  length, take, ◌-◌,
}
use embedded_basecamp.Prelude.Int.{ℤ}
use embedded_basecamp.Prelude.Partial.{◌>>=◌}
use embedded_basecamp.Display.{Frame, lcd_width, lcd_height}
use embedded_basecamp.Display.Frame.{frame_size, store, swapped, fill_rows, clipped, off_screen}
use embedded_basecamp.Display.Screen.{bytes_from}
use embedded_basecamp.Display.Text.{FontDef, put_chars}
use embedded_basecamp.Display.Commands as Driver
use embedded_basecamp.Display.Commands.{commands_transactions_count, read_bytes}
use embedded_basecamp.SpidevPanel.{
  File, value, Call, sleep, pin_dc, lcd_write_command, lcd_write_data,
}

-- `fd` is the descriptor of spi_module.c.
pub record Panel : Type 0 where
  pub fd : ℤ
  pub frame_buffer : Frame
  pub calls : List Call

-- The table, which is the kernel driver's but for the delays of the last two commands.
abbrev pub commands : List ℕ
commands = take 322 Driver.commands ++ 0x11 ∷ 0 ∷ 1 ∷ 0x29 ∷ 0 ∷ 1 ∷ []

abbrev pub with_calls : Panel → List Call → Panel
with_calls p cs = record p { calls = p.calls ++ cs }

-- `opens` is what `open` answers for a file, after the calls so far.
module _ (opens : List Call → File → ℤ) where
  -- lcd_write_command and lcd_write_data, with the calls that they make.
  unfoldable pub command : ℕ → Panel → Panel
  command cmd p = with_calls p (lcd_write_command (opens p.calls (value pin_dc)) p.fd cmd)

  unfoldable pub transmit : List ℕ → Panel → Option Panel
  transmit buff p = do
    cs ← lcd_write_data (length buff) (opens p.calls (value pin_dc)) p.fd buff
    some (with_calls p cs)

  unfoldable pub lcd_set_address_window : (x0 y0 x1 y1 : ℕ) → Panel → Option Panel
  lcd_set_address_window x0 y0 x1 y1 p = do
    p1 ← transmit (x0 / 256 % 256 ∷ x0 % 256 ∷ x1 / 256 % 256 ∷ x1 % 256 ∷ []) (command 0x2a p)
    p2 ← transmit (y0 / 256 % 256 ∷ y0 % 256 ∷ y1 / 256 % 256 ∷ y1 % 256 ∷ []) (command 0x2b p1)
    some (command 0x2c p2)

  unfoldable pub lcd_update_screen : Panel → Option Panel
  lcd_update_screen p = transmit (bytes_from p.frame_buffer frame_size 0) p

  unfoldable pub lcd_draw_pixel : (x y color : ℕ) → Panel → Option Panel
  lcd_draw_pixel x y color p = if off_screen x y then some p else (do
    f ← store (x + lcd_width * y) (swapped color) p.frame_buffer
    lcd_update_screen (record p { frame_buffer = f }))

  unfoldable pub lcd_fill_rectangle : (x y w h color : ℕ) → Panel → Option Panel
  lcd_fill_rectangle x y w h color p = if off_screen x y then some p else (do
    f ← fill_rows x y (clipped lcd_width x w) color (clipped lcd_height y h) 0 p.frame_buffer
    lcd_update_screen (record p { frame_buffer = f }))

  unfoldable pub lcd_fill_screen : ℕ → Panel → Option Panel
  lcd_fill_screen color p = lcd_fill_rectangle 0 0 (lcd_width - 1) (lcd_height - 1) color p

  abbrev pub pause : ℕ → Panel → Panel
  pause delay p = if delay == 0 then p else with_calls p (sleep delay ∷ [])

  unfoldable pub send_command : (cmd num_args delay : ℕ) → List ℕ → Panel → Option (List ℕ × Panel)
  send_command cmd num_args delay bytes p =
      if num_args == 0 then some (bytes, pause delay (command cmd p)) else (do
        (args, rest) ← read_bytes num_args bytes
        p1 ← transmit args (command cmd p)
        some (rest, pause delay p1))

  -- n transactions are left.
  unfoldable pub send_commands : (n : ℕ) → List ℕ → Panel → Option Panel
  send_commands zero bytes p = some p
  send_commands (suc n) bytes p = do
    (head, bytes1) ← read_bytes 3 bytes
    elim head [
      | cmd ∷ num_args ∷ delay ∷ [] ↦ do
        (rest, p1) ← send_command cmd num_args delay bytes1 p
        send_commands n rest p1
      | _ ↦ none
    ]

  unfoldable pub init_display_internal : Panel → Option Panel
  init_display_internal p = send_commands commands_transactions_count commands p

unfoldable pub lcd_put_string :
    List ℕ → (x y : ℕ) → FontDef → (color bgcolor : ℕ) → Panel → Option Panel
lcd_put_string string x y font color bgcolor p = do
  f ← put_chars string x x y font color bgcolor p.frame_buffer
  some (record p { frame_buffer = f })
