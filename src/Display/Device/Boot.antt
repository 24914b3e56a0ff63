-- ===== src/Display/Device/Boot.antt =====
-- The start of the display module.
use embedded_basecamp.Prelude.{
  ◌∙◌, Bool-cases, inl, inr, ℕ, ◌-◌, ◌≡◌, true, some, List, [], ◌∷◌, arith,
}
use embedded_basecamp.Prelude.Int.{ℤ, pos}
use embedded_basecamp.Display.{
  Frame, Display, lcd_width, lcd_height, lcd_write_command, lcd_write_data, spi_wrapper_write,
  gpio_module_set_value,
}
use embedded_basecamp.Display.Screen.{lcd_update_screen, lcd_set_address_window}
use embedded_basecamp.Display.Screen.Rectangle.{
  shown, lcd_fill_rectangle-Painted, lcd_fill_screen-Painted,
}
use embedded_basecamp.Display.Commands.Protocol.{init_display_cases}
use embedded_basecamp.Display.Text.{FontDef}
use embedded_basecamp.Display.Text.Layout.{AllPrintable, lcd_put_string_safe}
use embedded_basecamp.Display.Device.{banner, init_display_chardevice, display_module_init}

-- What is sent leaves the buffer as it is.
write-buffer : (bs : List ℕ) (d : Display) → (spi_wrapper_write bs d).frame_buffer ≡ d.frame_buffer
unfolding spi_wrapper_write
write-buffer bs d = elim (Bool-cases d.device) [ inl h ↦ rw h | inr h ↦ rw h ]

command-buffer : (c : ℕ) (d : Display) → (lcd_write_command c d).frame_buffer ≡ d.frame_buffer
unfolding lcd_write_command gpio_module_set_value
command-buffer c d = write-buffer (c ∷ []) _

data-buffer : (bs : List ℕ) (d : Display) → (lcd_write_data bs d).frame_buffer ≡ d.frame_buffer
unfolding lcd_write_data gpio_module_set_value
data-buffer bs d = write-buffer bs _

shown-buffer : (f : Frame) (d : Display) → (shown f d).frame_buffer ≡ some f
shown-buffer f d = data-buffer _ _

window-buffer :
    (x0 y0 x1 y1 : ℕ) (d : Display)
    → (lcd_set_address_window x0 y0 x1 y1 d).frame_buffer ≡ d.frame_buffer
unfolding lcd_set_address_window
window-buffer x0 y0 x1 y1 d =
    command-buffer _ _ ∙ data-buffer _ _ ∙ command-buffer _ _ ∙ data-buffer _ _ ∙ command-buffer _ _

-- With a font of 11 by 18 pixels that has the letters of the banner, and with the bus, the device and
-- the buffer there, display_module_init runs to its end and returns 0.
pub display_module_init_ok :
    (font : FontDef) (f : Frame) (bus chip allocated added : ℤ) (d : Display)
    → font.width ≡ 11
    → font.height ≡ 18
    → AllPrintable font banner
    → (d' : Display) × (display_module_init font true true (some f) bus chip allocated added d
        ≡ some (pos 0, (init_display_chardevice allocated added).1, d'))
unfolding display_module_init lcd_update_screen
display_module_init_ok font f bus chip allocated added d w h p =
    let (code, d1, run, (zero_code, (dev, buffer1))) =
      init_display_cases true true (some f) bus chip d in
    let d2 : Display = lcd_set_address_window 0 0 (lcd_width - 1) (lcd_height - 1) d1 in
    let (f3, run3, p3) =
      lcd_fill_screen-Painted d2 f 0x001f
        (window-buffer 0 0 (lcd_width - 1) (lcd_height - 1) d1 ∙ buffer1) in
    let (f4, run4, p4) =
      lcd_fill_rectangle-Painted (shown f3 d2) f3 20 20 50 50 0x07e0 (shown-buffer f3 d2)
        (omega arith) (omega arith) (λ e. absurd (omega arith)) (λ e. absurd (omega arith)) in
    let d4 : Display = shown f4 (shown f3 d2) in
    let (f5, run5, p5) =
      lcd_fill_rectangle-Painted d4 f4 40 40 80 80 0xf800 (shown-buffer f4 (shown f3 d2))
        (omega arith) (omega arith) (λ e. absurd (omega arith)) (λ e. absurd (omega arith)) in
    let d5 : Display = shown f5 d4 in
    let (f6, run6) =
      lcd_put_string_safe banner 60 60 font 0xf800 0 15 0 d5 f5 (shown-buffer f5 d4) p
        (rw w (omega arith)) (rw h (omega arith)) (omega arith) in
    (shown f6 (record d5 { frame_buffer = some f6 }), rw (run, zero_code, run3, run4, run5, run6))
