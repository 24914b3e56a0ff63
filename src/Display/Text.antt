-- ===== src/Display/Text.antt =====
-- Text, of final_task/display_driver/gc9a01.c: lcd_put_char and lcd_put_string.
pub mod Glyph
pub mod Layout
pub mod Line
use embedded_basecamp.Prelude.{
  ℕ, zero, suc, ◌+◌, ◌-◌, ◌*◌, ◌/◌, ◌%◌, ◌^◌, Option, none, some, List, [], ◌∷◌, ltb, ◌==◌, Bool,
  if◌then◌else◌, get_elem?,
}
use embedded_basecamp.Prelude.Partial.{◌>>=◌}
use embedded_basecamp.Display.{Frame, Display, lcd_width, lcd_height}
use embedded_basecamp.Display.Frame.{store, swapped}

-- `rows` is the field `data`. The tables of fonts.c are left to the caller.
pub record FontDef : Type 0 where
  pub width : ℕ
  pub height : ℕ
  pub rows : List ℕ

-- font.data[(ch - 32) * font.height + i]; for ch < 32 the index is negative.
unfoldable pub font_row : FontDef → (ch i : ℕ) → Option ℕ
font_row font ch i = if ltb ch 32 then none else get_elem? font.rows ((ch - 32) * font.height + i)

-- (b << j) & 0x8000
abbrev pub font_bit : (b j : ℕ) → Bool
font_bit b j = b * 2 ^ j / 0x8000 % 2 == 1

abbrev pub ink : (b color bgcolor j : ℕ) → ℕ
ink b color bgcolor j = if font_bit b j then swapped color else swapped bgcolor

-- n columns are left, from column j of row i.
unfoldable pub put_row : (x y i b color bgcolor n j : ℕ) → Frame → Option Frame
put_row x y i b color bgcolor zero j f = some f
put_row x y i b color bgcolor (suc n) j f = do
  f' ← store ((x + lcd_width * y) + (j + lcd_width * i)) (ink b color bgcolor j) f
  put_row x y i b color bgcolor n (j + 1) f'

unfoldable pub put_rows : (x y ch : ℕ) → FontDef → (color bgcolor n i : ℕ) → Frame → Option Frame
put_rows x y ch font color bgcolor zero i f = some f
put_rows x y ch font color bgcolor (suc n) i f = do
  b ← font_row font ch i
  f' ← put_row x y i b color bgcolor font.width 0 f
  put_rows x y ch font color bgcolor n (i + 1) f'

unfoldable pub lcd_put_char : (x y ch : ℕ) → FontDef → (color bgcolor : ℕ) → Frame → Option Frame
lcd_put_char x y ch font color bgcolor f = put_rows x y ch font color bgcolor font.height 0 f

-- The loop over the characters that are left, with local_x and local_y.
unfoldable pub put_chars :
    List ℕ → (x lx ly : ℕ) → FontDef → (color bgcolor : ℕ) → Frame → Option Frame
put_chars [] x lx ly font color bgcolor f = some f
put_chars (ch ∷ chs) x lx ly font color bgcolor f =
    let next = ltb lcd_width (lx + font.width) in
    let ly' = if next then (ly + font.height) % 2 ^ 16 else ly in
    let lx' = if next then x else lx in
    let rest = (do
      f' ← lcd_put_char lx' ly' ch font color bgcolor f
      put_chars chs x ((lx' + font.width) % 2 ^ 16) ly' font color bgcolor f') in
    if ltb lcd_height (ly + font.height) then some f else rest

unfoldable pub lcd_put_string :
    List ℕ → (x y : ℕ) → FontDef → (color bgcolor : ℕ) → Display → Option Display
lcd_put_string string x y font color bgcolor d = do
  f ← d.frame_buffer
  f' ← put_chars string x x y font color bgcolor f
  some (record d { frame_buffer = some f' })
