-- ===== src/Display/Frame.antt =====
-- Writes into the frame buffer, of final_task/display_driver/gc9a01.c: lcd_draw_pixel,
-- lcd_fill_rectangle and lcd_fill_screen, up to the update of the screen. A write out of the
-- buffer is a fault.
use embedded_basecamp.Prelude.{
  ℕ, Bool, zero, suc, ◌+◌, ◌-◌, ◌*◌, ◌/◌, ◌%◌, Option, none, some, ltb, leb, ◌==◌, ◌||◌,
  if◌then◌else◌,
}
use embedded_basecamp.Prelude.Partial.{◌>>=◌}
use embedded_basecamp.Display.{Frame, lcd_width, lcd_height}

-- The number of words that kmalloc is asked for.
abbrev pub frame_size : ℕ
frame_size = lcd_width * lcd_height

unfoldable pub store : ℕ → ℕ → Frame → Option Frame
store i v f = if ltb i frame_size then some (λ k. if k == i then v else f k) else none

-- (color >> 8) | (color << 8), cut to 16 bits by the store. The two parts share no bit.
abbrev pub swapped : ℕ → ℕ
swapped color = color / 256 + color * 256 % 65536

-- n columns are left, from column i.
unfoldable pub fill_row : (x y j color n i : ℕ) → Frame → Option Frame
fill_row x y j color zero i f = some f
fill_row x y j color (suc n) i f = do
  f' ← store ((x + lcd_width * y) + (i + lcd_width * j)) (swapped color) f
  fill_row x y j color n (i + 1) f'

unfoldable pub fill_rows : (x y w color n j : ℕ) → Frame → Option Frame
fill_rows x y w color zero j f = some f
fill_rows x y w color (suc n) j f = do
  f' ← fill_row x y j color w 0 f
  fill_rows x y w color n (j + 1) f'

-- The arithmetic is that of `int`, of 16-bit values: x + w - 1 is -1 at x = w = 0, where both it
-- and the number here are not above the bound.
abbrev pub clipped : (bound x w : ℕ) → ℕ
clipped bound x w = if ltb bound (x + w - 1) then bound - x else w

abbrev pub off_screen : ℕ → ℕ → Bool
off_screen x y = leb lcd_width x || leb lcd_height y
