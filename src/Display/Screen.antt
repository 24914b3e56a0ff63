-- ===== src/Display/Screen.antt =====
-- The drawing functions of final_task/display_driver/gc9a01.c, with the update of the screen, and
-- the address window.
pub mod Rectangle
use embedded_basecamp.Prelude.{
  ℕ, zero, suc, ◌+◌, ◌-◌, ◌*◌, ◌/◌, ◌%◌, Option, none, some, List, [], ◌∷◌, if◌then◌else◌,
}
use embedded_basecamp.Prelude.Partial.{◌>>=◌}
use embedded_basecamp.Display.{
  Frame, Display, lcd_width, lcd_height, lcd_write_command, lcd_write_data,
}
use embedded_basecamp.Display.Frame.{frame_size, store, swapped, fill_rows, clipped, off_screen}

-- The n words from k on as they lie in memory, the low byte first.
unfoldable pub bytes_from : Frame → (n k : ℕ) → List ℕ
bytes_from f zero k = []
bytes_from f (suc n) k = f k % 256 ∷ f k / 256 % 256 ∷ bytes_from f n (k + 1)

unfoldable pub lcd_update_screen : Display → Option Display
lcd_update_screen d = do f ← d.frame_buffer; some (lcd_write_data (bytes_from f frame_size 0) d)

unfoldable pub lcd_set_address_window : (x0 y0 x1 y1 : ℕ) → Display → Display
lcd_set_address_window x0 y0 x1 y1 d =
    let d1 = lcd_write_command 0x2a d in
    let d2 = lcd_write_data (x0 / 256 % 256 ∷ x0 % 256 ∷ x1 / 256 % 256 ∷ x1 % 256 ∷ []) d1 in
    let d3 = lcd_write_command 0x2b d2 in
    let d4 = lcd_write_data (y0 / 256 % 256 ∷ y0 % 256 ∷ y1 / 256 % 256 ∷ y1 % 256 ∷ []) d3 in
    lcd_write_command 0x2c d4

unfoldable pub lcd_draw_pixel : (x y color : ℕ) → Display → Option Display
lcd_draw_pixel x y color d = if off_screen x y then some d else (do
  f ← d.frame_buffer
  f' ← store (x + lcd_width * y) (swapped color) f
  lcd_update_screen (record d { frame_buffer = some f' }))

unfoldable pub lcd_fill_rectangle : (x y w h color : ℕ) → Display → Option Display
lcd_fill_rectangle x y w h color d = if off_screen x y then some d else (do
  f ← d.frame_buffer
  f' ← fill_rows x y (clipped lcd_width x w) color (clipped lcd_height y h) 0 f
  lcd_update_screen (record d { frame_buffer = some f' }))

unfoldable pub lcd_fill_screen : ℕ → Display → Option Display
lcd_fill_screen color d = lcd_fill_rectangle 0 0 (lcd_width - 1) (lcd_height - 1) color d
