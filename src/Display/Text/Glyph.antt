-- ===== src/Display/Text/Glyph.antt =====
-- lcd_put_char by pixels.
use embedded_basecamp.Prelude.{
  ℕ, zero, suc, ◌+◌, ◌-◌, ◌*◌, ◌<◌, ◌≤◌, ◌≡◌, refl, false, Option, none, some, List, [], ◌∷◌, ltb,
  ◌==◌, ◌&&◌, if◌then◌else◌, arith, Bool-cases, inl, inr, ◌∙◌, get_elem?, length,
}
use embedded_basecamp.Display.{Frame, lcd_width, lcd_height}
use embedded_basecamp.Display.Frame.{store}
use embedded_basecamp.Display.Screen.Rectangle.{within, store-hit, pixel_index}
use embedded_basecamp.Display.Text.{FontDef, font_row, ink, put_row, put_rows, lcd_put_char}

put_next :
    (x y i n j px py v old : ℕ)
    → x + j + suc n ≤ lcd_width
    → px < lcd_width
    → (c : ℕ → ℕ) → c j ≡ v
    → (if within (x + (j + 1)) n px && (py == y + i)
        then c (px - x)
        else if px + lcd_width * py == (x + lcd_width * y) + (j + lcd_width * i)
        then v
        else old)
      ≡ (if within (x + j) (suc n) px && (py == y + i) then c (px - x) else old)
put_next x y i n j px py v old a h c e =
    rw (pixel_index x y i j px py (omega arith) h) (elim (Bool-cases (px == x + j)) [
      | inl k ↦ let same : px - x ≡ j = ground arith in rw (same, e) (ground arith)
      | inr k ↦ ground arith
    ])

put_row-painted :
    (x y i b color bgcolor n j : ℕ) (f : Frame)
    → x + j + n ≤ lcd_width
    → y + i < lcd_height
    → (f' : Frame) × (put_row x y i b color bgcolor n j f ≡ some f')
      × ((px py : ℕ)
          → px < lcd_width
          → f' (px + lcd_width * py) ≡ (
              if within (x + j) n px && (py == y + i)
              then ink b color bgcolor (px - x)
              else f (px + lcd_width * py)))
unfolding put_row
put_row-painted x y i b color bgcolor zero j f a c = (f, refl, λ px py h. ground arith)
put_row-painted x y i b color bgcolor (suc n) j f a c =
    let at : ℕ = (x + lcd_width * y) + (j + lcd_width * i) in
    let v : ℕ = ink b color bgcolor j in
    let hit : store at v f ≡ some (λ k. if k == at then v else f k) =
      store-hit at v f (omega arith) in
    let (f', run, p) =
      put_row-painted x y i b color bgcolor n (j + 1) (λ k. if k == at then v else f k)
        (omega arith) c in
    (
      f',
      rw (hit, run),
      λ px py h. p px py h ∙ put_next x y i n j px py v _ a h (ink b color bgcolor) refl,
    )

abbrev pub or_zero : Option ℕ → ℕ
or_zero none = 0
or_zero (some b) = b

-- The bits of a row of a glyph.
abbrev pub font_word : FontDef → (ch i : ℕ) → ℕ
font_word font ch i = or_zero (font_row font ch i)

-- The font has all rows of the character.
abbrev pub Printable : FontDef → ℕ → Type 0
Printable font ch = (32 ≤ ch) × ((ch - 32) * font.height + font.height ≤ length font.rows)

get_elem?-bound :
    {A : Type 0} (xs : List A) (i : ℕ) → i < length xs → (a : A) × (get_elem? xs i ≡ some a)
get_elem?-bound [] i h = absurd (omega arith)
get_elem?-bound (x ∷ xs) zero h = (x, refl)
get_elem?-bound (x ∷ xs) (suc i) h = get_elem?-bound xs i (omega arith)

font_row-Printable :
    (font : FontDef) (ch i : ℕ)
    → Printable font ch
    → i < font.height
    → font_row font ch i ≡ some (font_word font ch i)
unfolding font_row
font_row-Printable font ch i (a, b) h =
    let low : ltb ch 32 ≡ false = ground arith in
    let (w, eq) = get_elem?-bound font.rows ((ch - 32) * font.height + i) (omega arith) in
    rw (low, eq)

put_rows-painted :
    (x y ch : ℕ) (font : FontDef) (color bgcolor n i : ℕ) (f : Frame)
    → Printable font ch
    → i + n ≤ font.height
    → x + font.width ≤ lcd_width
    → y + i + n ≤ lcd_height
    → (f' : Frame) × (put_rows x y ch font color bgcolor n i f ≡ some f')
      × ((px py : ℕ)
          → px < lcd_width
          → f' (px + lcd_width * py) ≡ (
              if within x font.width px && within (y + i) n py
              then ink (font_word font ch (py - y)) color bgcolor (px - x)
              else f (px + lcd_width * py)))
unfolding put_rows
put_rows-painted x y ch font color bgcolor zero i f p a b c = (f, refl, λ px py h. ground arith)
put_rows-painted x y ch font color bgcolor (suc n) i f p a b c =
    let word = font_word font ch i in
    let (f1, row, q) =
      put_row-painted x y i word color bgcolor font.width 0 f (omega arith) (omega arith) in
    let (f', run, r) =
      put_rows-painted x y ch font color bgcolor n (i + 1) f1 p (omega arith) b (omega arith) in
    (
      f',
      rw (font_row-Printable font ch i p (omega arith), row, run),
      λ px py h.
          r px py h
          ∙ rw (q px py h) (
              rows_next x y i n px py font.width (f (px + lcd_width * py))
                (λ k. ink (font_word font ch k) color bgcolor (px - x))),
    )
  where
    rows_next :
        (x y i n px py w old : ℕ) (c : ℕ → ℕ)
        → (if within x w px && within (y + (i + 1)) n py
            then c (py - y)
            else if within (x + 0) w px && (py == y + i)
            then c i
            else old)
          ≡ (if within x w px && within (y + i) (suc n) py then c (py - y) else old)
    rows_next x y i n px py w old c = elim (Bool-cases (py == y + i)) [
      | inl k ↦ let same : py - y ≡ i = ground arith in rw same (ground arith)
      | inr k ↦ ground arith
    ]

-- With a printable character and its cell on the screen, lcd_put_char does not fault. Inside the
-- cell a pixel has the ink that its bit of the font says, and outside of it is as before.
pub lcd_put_char-painted :
    (x y ch : ℕ) (font : FontDef) (color bgcolor : ℕ) (f : Frame)
    → Printable font ch
    → x + font.width ≤ lcd_width
    → y + font.height ≤ lcd_height
    → (f' : Frame) × (lcd_put_char x y ch font color bgcolor f ≡ some f')
      × ((px py : ℕ)
          → px < lcd_width
          → f' (px + lcd_width * py) ≡ (
              if within x font.width px && within y font.height py
              then ink (font_word font ch (py - y)) color bgcolor (px - x)
              else f (px + lcd_width * py)))
unfolding lcd_put_char
lcd_put_char-painted x y ch font color bgcolor f p a b =
    let (f', run, q) =
      put_rows-painted x y ch font color bgcolor font.height 0 f p (omega arith) a (omega arith) in
    (f', run, λ px py h. q px py h ∙ ground arith)
