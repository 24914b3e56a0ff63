-- ===== src/Display/Text/Line.antt =====
-- lcd_put_string by pixels, for a text that fits into its line; and a character that no font has.
use embedded_basecamp.Prelude.{
  ℕ, suc, ◌+◌, ◌-◌, ◌*◌, ◌%◌, ◌^◌, ◌<◌, ◌≤◌, ◌≡◌, refl, ◌∙◌, true, false, Option, none, some, List,
  [], ◌∷◌, ◌++◌, ltb, leb, ◌&&◌, if◌then◌else◌, arith, Bool-cases, Option-cases, inl, inr, length,
}
use embedded_basecamp.Display.{Frame, Display, lcd_width, lcd_height}
use embedded_basecamp.Display.Screen.Rectangle.{within}
use embedded_basecamp.Display.Text.{
  FontDef, font_row, ink, put_rows, lcd_put_char, put_chars, lcd_put_string,
}
use embedded_basecamp.Display.Text.Glyph.{font_word, lcd_put_char-painted}
use embedded_basecamp.Display.Text.Layout.{AllPrintable}

-- The character at an offset in a line of cells of width `w`, and the column in its cell.
abbrev pub cell : (w : ℕ) → List ℕ → (offset : ℕ) → Option (ℕ × ℕ)
cell w [] offset = none
cell w (ch ∷ chs) offset = if ltb offset w then some (ch, offset) else cell w chs (offset - w)

abbrev pub cell_ink : FontDef → (color bgcolor row old : ℕ) → Option (ℕ × ℕ) → ℕ
cell_ink font color bgcolor row old none = old
cell_ink font color bgcolor row old (some (ch, column)) =
    ink (font_word font ch row) color bgcolor column

-- A pixel after the line, where it was `old` before.
abbrev pub line_ink : FontDef → (color bgcolor : ℕ) → List ℕ → (x y px py old : ℕ) → ℕ
line_ink font color bgcolor chs x y px py old =
    if leb x px && within y font.height py
    then cell_ink font color bgcolor (py - y) old (cell font.width chs (px - x))
    else old

line_ink-cons :
    (font : FontDef) (color bgcolor ch : ℕ) (chs : List ℕ) (x y px py old : ℕ)
    → line_ink font color bgcolor chs (x + font.width) y px py (
        if within x font.width px && within y font.height py
        then ink (font_word font ch (py - y)) color bgcolor (px - x)
        else old)
      ≡ line_ink font color bgcolor (ch ∷ chs) x y px py old
line_ink-cons font color bgcolor ch chs x y px py old =
    elim (Bool-cases (within y font.height py)) [
      | inr h ↦ rw h (ground arith)
      | inl h ↦ elim (Bool-cases (leb (x + font.width) px)) [
        | inl k ↦
            let beyond : ltb (px - x) font.width ≡ false = ground arith in
            let right : leb x px ≡ true = ground arith in
            let out : ltb px (x + font.width) ≡ false = ground arith in
            let same : px - (x + font.width) ≡ px - x - font.width = omega arith in
            rw (h, k, beyond, right, out, same) refl
        | inr k ↦ elim (Bool-cases (leb x px)) [
          | inr l ↦ rw (h, k, l) refl
          | inl l ↦
              let here : ltb (px - x) font.width ≡ true = ground arith in
              let in_cell : ltb px (x + font.width) ≡ true = ground arith in
              rw (h, k, l, here, in_cell) refl
        ]
      ]
    ]

pub put_chars-painted :
    (chs : List ℕ) (x lx y : ℕ) (font : FontDef) (color bgcolor : ℕ) (f : Frame)
    → AllPrintable font chs
    → lx + length chs * font.width ≤ lcd_width
    → y + font.height ≤ lcd_height
    → (f' : Frame) × (put_chars chs x lx y font color bgcolor f ≡ some f')
      × ((px py : ℕ)
          → px < lcd_width
          → f' (px + lcd_width * py)
            ≡ line_ink font color bgcolor chs lx y px py (f (px + lcd_width * py)))
unfolding put_chars
put_chars-painted [] x lx y font color bgcolor f p a b = (f, refl, λ px py h. ground arith)
put_chars-painted (ch ∷ chs) x lx y font color bgcolor f p a b =
    let one : font.width ≤ suc (length chs) * font.width = grind arith in
    let more : lx + font.width + length chs * font.width ≤ lcd_width = grind arith in
    let (f1, drawn, q) = lcd_put_char-painted lx y ch font color bgcolor f p.0 (omega arith) b in
    let (f', run, r) =
      put_chars-painted chs x (lx + font.width) y font color bgcolor f1 p.1 more b in
    let go : ltb lcd_height (y + font.height) ≡ false = ground arith in
    let fits : ltb lcd_width (lx + font.width) ≡ false = ground arith in
    let small : (lx + font.width) % 2 ^ 16 ≡ lx + font.width = omega arith in
    (
      f',
      rw (go, fits, drawn, small, run) refl,
      λ px py h. r px py h ∙ rw (q px py h) (line_ink-cons font color bgcolor ch chs lx y px py _),
    )

-- Printable text that fits into the line from (x, y) on: lcd_put_string does not fault. A pixel of
-- the line's cells has the ink that its bit says in the font, for the character of its cell; every
-- other pixel of the buffer is as before, and so is the rest of the driver: nothing is sent.
pub lcd_put_string-painted :
    (string : List ℕ) (x y : ℕ) (font : FontDef) (color bgcolor : ℕ) (d : Display) (f : Frame)
    → d.frame_buffer ≡ some f
    → AllPrintable font string
    → x + length string * font.width ≤ lcd_width
    → y + font.height ≤ lcd_height
    → (f' : Frame) × (lcd_put_string string x y font color bgcolor d
        ≡ some (record d { frame_buffer = some f' }))
      × ((px py : ℕ)
          → px < lcd_width
          → f' (px + lcd_width * py)
            ≡ line_ink font color bgcolor string x y px py (f (px + lcd_width * py)))
unfolding lcd_put_string
lcd_put_string-painted string x y font color bgcolor d f buffer p a b =
    let (f', run, q) = put_chars-painted string x x y font color bgcolor f p a b in
    (f', rw (buffer, run) refl, q)

put_char-low :
    (x y ch h : ℕ) (font : FontDef) (color bgcolor : ℕ) (f : Frame)
    → font.height ≡ suc h
    → ch < 32
    → lcd_put_char x y ch font color bgcolor f ≡ none
unfolding lcd_put_char put_rows font_row
put_char-low x y ch h font color bgcolor f e low =
    let before : ltb ch 32 ≡ true = ground arith in rw (e, before) refl

-- A character below the space, such as the end of a line, where the text up to it fits into the line:
-- the row of the font is looked up in front of its table, whatever stands before and behind.
pub put_chars-low :
    (before after : List ℕ) (ch x lx y h : ℕ) (font : FontDef) (color bgcolor : ℕ) (f : Frame)
    → font.height ≡ suc h
    → ch < 32
    → lx + suc (length before) * font.width ≤ lcd_width
    → y + font.height ≤ lcd_height
    → put_chars (before ++ ch ∷ after) x lx y font color bgcolor f ≡ none
unfolding put_chars
put_chars-low [] after ch x lx y h font color bgcolor f e low a b =
    let go : ltb lcd_height (y + font.height) ≡ false = ground arith in
    let fits : ltb lcd_width (lx + font.width) ≡ false = grind arith in
    rw (go, fits, put_char-low lx y ch h font color bgcolor f e low) refl
put_chars-low (c ∷ before) after ch x lx y h font color bgcolor f e low a b =
    let more : lx + font.width + suc (length before) * font.width ≤ lcd_width = grind arith in
    let one : lx + font.width ≤ lcd_width = omega arith in
    let go : ltb lcd_height (y + font.height) ≡ false = ground arith in
    let fits : ltb lcd_width (lx + font.width) ≡ false = ground arith in
    let small : (lx + font.width) % 2 ^ 16 ≡ lx + font.width = omega arith in
    elim (Option-cases (lcd_put_char lx y c font color bgcolor f)) [
      | inl k ↦ rw (go, fits, k) refl
      | inr (f1, k) ↦
          rw (go, fits, k, small)
            (put_chars-low before after ch x (lx + font.width) y h font color bgcolor f1 e low more
              b)
    ]
