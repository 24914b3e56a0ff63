-- ===== src/Buttons/Screen.antt =====
-- What task4/main.c draws: the counter, the time and the address, on the panel of SpidevPanel.
pub mod Shown
pub mod Stale
mod Examples
use embedded_basecamp.Prelude.{
  ℕ, ◌-◌, ◌/◌, Option, none, some, Bool, true, false, List, [], ◌∷◌, if◌then◌else◌,
}
use embedded_basecamp.Prelude.Int.{ℤ}
use embedded_basecamp.Prelude.Partial.{◌>>=◌}
use embedded_basecamp.Display.{lcd_width, lcd_height}
use embedded_basecamp.Display.Text.{FontDef}
use embedded_basecamp.SpidevPanel.{File, Call}
use embedded_basecamp.SpidevPanel.Screen as Spidev
use embedded_basecamp.SpidevPanel.Screen.{lcd_put_string, lcd_update_screen}
use embedded_basecamp.Buttons.{Panel, draw_counter_value}

abbrev pub color_black : ℕ
color_black = 0

abbrev pub color_red : ℕ
color_red = 0xF800

-- The buttons with the counter, the display, and `local_ip`: `none` until it has been read.
pub record Program : Type 0 where
  pub panel : Panel
  pub screen : Spidev.Panel
  pub local_ip : Option (List ℕ)

-- The tables of the two fonts, what `open` answers, and what snprintf makes of a number.
pub record Setting : Type 0 where
  pub rows_11x18 : List ℕ
  pub rows_16x26 : List ℕ
  pub opens : List Call → File → ℤ
  pub decimal : ℤ → List ℕ

module _ (setting : Setting) where
  open setting use {rows_11x18, rows_16x26, opens, decimal}

  abbrev pub font_11x18 : FontDef
  font_11x18 = record { width = 11; height = 18; rows = rows_11x18 }

  abbrev pub font_16x26 : FontDef
  font_16x26 = record { width = 16; height = 26; rows = rows_16x26 }

  -- `time_text` is what snprintf makes of the local time.
  unfoldable pub draw_current_time : (time_text : List ℕ) → Program → Option Program
  draw_current_time time_text s = do
    z ← lcd_put_string time_text (lcd_width / 4) 40 font_11x18 color_red color_black s.screen
    z' ← lcd_update_screen opens z
    some (record s { screen = z' })

  -- `host` is what fgets leaves in local_ip, `none` if the file does not open: fgets on a stream that
  -- is NULL is a fault.
  unfoldable pub draw_ip_address : (host : Option (List ℕ)) → Program → Option Program
  draw_ip_address host s = do
    ip ← elim s.local_ip [ none ↦ host | some t ↦ some t ]
    z ←
        lcd_put_string ip (lcd_width / 4) (lcd_height - 60) font_11x18 color_red color_black
          s.screen
    some (record s { screen = z; local_ip = some ip })

  -- draw_counter_value, whose flag and value are those of Buttons.draw_counter_value.
  unfoldable pub show_counter_value : Program → Option Program
  show_counter_value s =
      let draw = (do
        z ←
            lcd_put_string (decimal s.panel.app.counter_value) (lcd_width / 2 - 16 / 2)
              (lcd_height / 2 - 26 / 2) font_16x26 color_red color_black s.screen
        z' ← lcd_update_screen opens z
        some (record s { screen = z'; panel = draw_counter_value s.panel })) in
      if s.panel.app.counter_rect_invalidated then draw else some s

  -- The drawing of a round of main.
  unfoldable pub draw_round :
      (time_text : List ℕ) → (host : Option (List ℕ)) → Program → Option Program
  draw_round time_text host s =
      show_counter_value s >>= draw_current_time time_text >>= draw_ip_address host
