-- ===== src/Display/Screen/Rectangle.antt =====
-- lcd_fill_rectangle by pixels: `f (px + lcd_width * py)` is the pixel of column px and row py.
use embedded_basecamp.Prelude.{
  ℕ, zero, suc, ◌+◌, ◌-◌, ◌*◌, ◌<◌, ◌≤◌, ◌≡◌, ◌≢◌, refl, Bool, false, none, some, ltb, leb, ◌==◌,
  ◌&&◌, if◌then◌else◌, arith, Option-cases, inl, inr, ap, ◌∙◌,
}
use embedded_basecamp.Prelude.Partial.{◌>>=◌}
use embedded_basecamp.Display.{Frame, Display, lcd_width, lcd_height, lcd_write_data}
use embedded_basecamp.Display.Frame.{
  frame_size, store, swapped, fill_row, fill_rows, clipped, off_screen,
}
use embedded_basecamp.Display.Screen.{
  bytes_from, lcd_update_screen, lcd_draw_pixel, lcd_fill_rectangle, lcd_fill_screen,
}

-- lo ≤ p < lo + n
abbrev pub within : (lo n p : ℕ) → Bool
within lo n p = leb lo p && ltb p (lo + n)

pub store-hit :
    (i v : ℕ) (f : Frame) → i < frame_size → store i v f ≡ some (λ k. if k == i then v else f k)
unfolding store
store-hit i v f h = ground arith

-- The pixels after a row, or rows: those inside are painted, the others are as before.
abbrev pub Painted : (x w y h v : ℕ) (f f' : Frame) → Type 0
Painted x w y h v f f' =
    (px py : ℕ)
    → px < lcd_width
    → f' (px + lcd_width * py)
      ≡ (if within x w px && within y h py then v else f (px + lcd_width * py))

-- The store at column x + i of row y + j is at that pixel only.
pub pixel_index :
    (x y j i px py : ℕ)
    → x + i < lcd_width
    → px < lcd_width
    → (px + lcd_width * py == (x + lcd_width * y) + (i + lcd_width * j))
      ≡ ((px == x + i) && (py == y + j))
pixel_index x y j i px py a h = ground arith

paint_next :
    (x y j n i px py v old : ℕ)
    → x + i + suc n ≤ lcd_width
    → y + j < lcd_height
    → px < lcd_width
    → (if within (x + (i + 1)) n px && within (y + j) 1 py
        then v
        else if px + lcd_width * py == (x + lcd_width * y) + (i + lcd_width * j)
        then v
        else old)
      ≡ (if within (x + i) (suc n) px && within (y + j) 1 py then v else old)
paint_next x y j n i px py v old a b h =
    rw (pixel_index x y j i px py (omega arith) h) (ground arith)

fill_row-Painted :
    (x y j color n i : ℕ) (f : Frame)
    → x + i + n ≤ lcd_width
    → y + j < lcd_height
    → (f' : Frame) × (fill_row x y j color n i f ≡ some f')
      × Painted (x + i) n (y + j) 1 (swapped color) f f'
unfolding fill_row
fill_row-Painted x y j color zero i f a b = (f, refl, λ px py h. ground arith)
fill_row-Painted x y j color (suc n) i f a b =
    let at : ℕ = (x + lcd_width * y) + (i + lcd_width * j) in
    let hit : store at (swapped color) f ≡ some (λ k. if k == at then swapped color else f k) =
      store-hit at (swapped color) f (omega arith) in
    let (f', run, p) =
      fill_row-Painted x y j color n (i + 1) (λ k. if k == at then swapped color else f k)
        (omega arith) b in
    (f', rw (hit, run), λ px py h. p px py h ∙ paint_next x y j n i px py _ _ a b h)

fill_rows-Painted :
    (x y w color n j : ℕ) (f : Frame)
    → x + w ≤ lcd_width
    → y + j + n ≤ lcd_height
    → (f' : Frame) × (fill_rows x y w color n j f ≡ some f')
      × Painted x w (y + j) n (swapped color) f f'
unfolding fill_rows
fill_rows-Painted x y w color zero j f a b = (f, refl, λ px py h. ground arith)
fill_rows-Painted x y w color (suc n) j f a b =
    let (f1, row, p) = fill_row-Painted x y j color w 0 f (omega arith) (omega arith) in
    let (f', run, q) = fill_rows-Painted x y w color n (j + 1) f1 a (omega arith) in
    (f', rw (row, run), λ px py h. q px py h ∙ rw (p px py h) (ground arith))

-- A row past the last one is a fault.
fill_rows-overrun :
    (x y w color n j : ℕ) (f : Frame)
    → y + j + n ≡ lcd_height
    → fill_rows x y (suc w) color (suc n) j f ≡ none
unfolding fill_rows fill_row store
fill_rows-overrun x y w color zero j f b =
    let out : ltb ((x + lcd_width * y) + (0 + lcd_width * j)) frame_size ≡ false = ground arith in
    rw out
fill_rows-overrun x y w color (suc n) j f b =
    elim (Option-cases (fill_row x y j color (suc w) 0 f)) [
      | inl h ↦ rw h
      | inr (f1, h) ↦ rw h (fill_rows-overrun x y w color n (j + 1) f1 (omega arith))
    ]

-- lcd_update_screen sends the whole buffer and changes nothing else.
abbrev pub shown : Frame → Display → Display
shown f d = lcd_write_data (bytes_from f frame_size 0) (record d { frame_buffer = some f })

module _ (d : Display) (f : Frame) (x y w h color : ℕ) (buffer : d.frame_buffer ≡ some f)
    (on_x : x < lcd_width) (on_y : y < lcd_height) where
  -- With a corner on the screen, and unless the rectangle ends exactly one column or one row past
  -- the edge, lcd_fill_rectangle paints exactly the pixels of the screen that are in the rectangle,
  -- in the color with its bytes swapped, keeps the others, and sends the new buffer.
  pub lcd_fill_rectangle-Painted :
      x + w ≢ lcd_width + 1
      → y + h ≢ lcd_height + 1
      → (f' : Frame) × (lcd_fill_rectangle x y w h color d ≡ some (shown f' d))
        × ((px py : ℕ)
            → px < lcd_width
            → py < lcd_height
            → f' (px + lcd_width * py)
              ≡ (if within x w px && within y h py then swapped color else f (px + lcd_width * py)))
  unfolding lcd_fill_rectangle lcd_update_screen
  lcd_fill_rectangle-Painted nx ny =
      let seen : off_screen x y ≡ false = ground arith in
      let (f', run, p) =
        fill_rows-Painted x y (clipped lcd_width x w) color (clipped lcd_height y h) 0 f
          (ground arith) (ground arith) in
      (f', rw (seen, buffer, run), λ px py a b. p px py a ∙ ground arith)

  -- A rectangle that is not empty and ends exactly one row past the bottom edge is not clipped, and
  -- lcd_fill_rectangle writes past the end of the buffer.
  pub lcd_fill_rectangle-overrun :
      1 ≤ w → y + h ≡ lcd_height + 1 → lcd_fill_rectangle x y w h color d ≡ none
  unfolding lcd_fill_rectangle
  lcd_fill_rectangle-overrun one past =
      let seen : off_screen x y ≡ false = ground arith in
      let wide : clipped lcd_width x w ≡ suc (clipped lcd_width x w - 1) = ground arith in
      let tall : clipped lcd_height y h ≡ suc (h - 1) = ground arith in
      rw (seen, buffer, wide, tall)
        (ap (λ o. o >>= λ f'. lcd_update_screen (record d { frame_buffer = some f' }))
          (fill_rows-overrun x y (clipped lcd_width x w - 1) color (h - 1) 0 f (omega arith)))

-- On the screen lcd_draw_pixel sets one pixel and sends the new buffer.
pub lcd_draw_pixel-Painted :
    (d : Display) (f : Frame) (x y color : ℕ)
    → d.frame_buffer ≡ some f
    → x < lcd_width
    → y < lcd_height
    → (f' : Frame) × (lcd_draw_pixel x y color d ≡ some (shown f' d))
      × Painted x 1 y 1 (swapped color) f f'
unfolding lcd_draw_pixel lcd_update_screen
lcd_draw_pixel-Painted d f x y color buffer on_x on_y =
    let seen : off_screen x y ≡ false = ground arith in
    let hit = store-hit (x + lcd_width * y) (swapped color) f (omega arith) in
    (
      λ k. if k == x + lcd_width * y then swapped color else f k,
      rw (seen, buffer, hit),
      λ px py a. ground arith,
    )

-- lcd_fill_screen paints all pixels but those of the last column and of the last row, which it
-- keeps.
pub lcd_fill_screen-Painted :
    (d : Display) (f : Frame) (color : ℕ)
    → d.frame_buffer ≡ some f
    → (f' : Frame) × (lcd_fill_screen color d ≡ some (shown f' d))
      × ((px py : ℕ)
          → px < lcd_width
          → py < lcd_height
          → f' (px + lcd_width * py) ≡ (
              if ltb px (lcd_width - 1) && ltb py (lcd_height - 1)
              then swapped color
              else f (px + lcd_width * py)))
unfolding lcd_fill_screen
lcd_fill_screen-Painted d f color buffer =
    let (f', run, p) =
      lcd_fill_rectangle-Painted d f 0 0 (lcd_width - 1) (lcd_height - 1) color buffer (omega arith)
        (omega arith) (λ e. absurd (omega arith)) (λ e. absurd (omega arith)) in
    (f', run, λ px py a b. p px py a b ∙ ground arith)
