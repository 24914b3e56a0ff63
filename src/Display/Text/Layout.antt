-- ===== src/Display/Text/Layout.antt =====
-- lcd_put_string: the text that stays in the buffer, and the text that does not.
use embedded_basecamp.Prelude.{
  ℕ, zero, suc, ◌+◌, ◌-◌, ◌*◌, ◌%◌, ◌^◌, ◌<◌, ◌≤◌, ◌≡◌, refl, true, false, none, some, List, [],
  ◌∷◌, ltb, ◌==◌, if◌then◌else◌, arith, Bool-cases, Option-cases, inl, inr, length,
}
use embedded_basecamp.Display.{Frame, Display, lcd_width, lcd_height}
use embedded_basecamp.Display.Frame.{frame_size, store}
use embedded_basecamp.Display.Text.{
  FontDef, font_row, put_row, put_rows, lcd_put_char, put_chars, lcd_put_string,
}
use embedded_basecamp.Display.Text.Glyph.{Printable, lcd_put_char-painted}

abbrev pub AllPrintable : FontDef → List ℕ → Type 0
AllPrintable font [] = Unit
AllPrintable font (ch ∷ chs) = Printable font ch × AllPrintable font chs

-- One character in a cell that is on the screen, and the rest after it.
put_chars-cons :
    (ch : ℕ) (chs : List ℕ) (x lx ly lx' ly' : ℕ) (font : FontDef) (color bgcolor : ℕ) (f : Frame)
    → Printable font ch
    → ltb lcd_height (ly + font.height) ≡ false
    → (if ltb lcd_width (lx + font.width) then x else lx) ≡ lx'
    → (if ltb lcd_width (lx + font.width) then (ly + font.height) % 2 ^ 16 else ly) ≡ ly'
    → lx' + font.width ≤ lcd_width
    → ly' + font.height ≤ lcd_height
    → ((f1 : Frame)
        → (f' : Frame) × (put_chars chs x (lx' + font.width) ly' font color bgcolor f1 ≡ some f'))
    → (f' : Frame) × (put_chars (ch ∷ chs) x lx ly font color bgcolor f ≡ some f')
unfolding put_chars
put_chars-cons ch chs x lx ly lx' ly' font color bgcolor f p go ex ey a b later =
    let (f1, drawn, q) = lcd_put_char-painted lx' ly' ch font color bgcolor f p a b in
    let (f', run) = later f1 in
    let small : (lx' + font.width) % 2 ^ 16 ≡ lx' + font.width = omega arith in
    (f', rw (go, ex, ey, drawn, small, run))

-- k more characters fit into this line, and r more lines of `cols + 1` characters under it.
put_chars_safe :
    (chs : List ℕ) (x lx ly : ℕ) (font : FontDef) (color bgcolor cols k r : ℕ) (f : Frame)
    → AllPrintable font chs
    → x + (cols + 1) * font.width ≤ lcd_width
    → lx + k * font.width ≤ lcd_width
    → ly + (r + 1) * font.height ≤ lcd_height
    → length chs ≤ k + r * (cols + 1)
    → (f' : Frame) × (put_chars chs x lx ly font color bgcolor f ≡ some f')
unfolding put_chars
put_chars_safe [] x lx ly font color bgcolor cols k r f p a b c d = (f, refl)
put_chars_safe (ch ∷ chs) x lx ly font color bgcolor cols k r f p a b c d =
    elim (Bool-cases (ltb lcd_width (lx + font.width))) [
      | inl h ↦ wrapped k r b c d h (λ r f1 e l.
          put_chars_safe chs x (x + font.width) (ly + font.height) font color bgcolor cols cols r f1
            p.1 a (grind arith) e l)
      | inr h ↦
          put_chars-cons ch chs x lx ly lx ly font color bgcolor f p.0 go (rw h) (rw h)
            (ground arith) (grind arith)
            (λ f1.
              put_chars_safe chs x (lx + font.width) ly font color bgcolor cols (k - 1) r f1 p.1 a
                (room k b (ground arith)) c (left k r d))
    ]
  where
    go : ltb lcd_height (ly + font.height) ≡ false
    go = let e : font.height ≤ (r + 1) * font.height = grind arith in ground arith

    room :
        (k : ℕ)
        → lx + k * font.width ≤ lcd_width
        → lx + font.width ≤ lcd_width
        → lx + font.width + (k - 1) * font.width ≤ lcd_width
    room zero b e = omega arith
    room (suc k) b e = grind arith

    left : (k r : ℕ) → suc (length chs) ≤ k + r * (cols + 1) → length chs ≤ k - 1 + r * (cols + 1)
    left k r d = omega arith

    -- No character is left for this line, and one line at least is.
    wrapped :
        (k r : ℕ)
        → lx + k * font.width ≤ lcd_width
        → ly + (r + 1) * font.height ≤ lcd_height
        → suc (length chs) ≤ k + r * (cols + 1)
        → ltb lcd_width (lx + font.width) ≡ true
        → ((r : ℕ) (f1 : Frame)
            → ly + font.height + (r + 1) * font.height ≤ lcd_height
            → length chs ≤ cols + r * (cols + 1)
            → (f' : Frame) × (put_chars chs x
                  (x + font.width)
                  (ly + font.height)
                  font
                  color
                  bgcolor
                  f1
                ≡ some f'))
        → (f' : Frame) × (put_chars (ch ∷ chs) x lx ly font color bgcolor f ≡ some f')
    wrapped (suc k) r b c d h later =
        absurd (let e : font.width ≤ suc k * font.width = grind arith in ground arith)
    wrapped zero zero b c d h later = absurd (grind arith)
    wrapped zero (suc r) b c d h later =
        let e : ly + font.height + (r + 1) * font.height ≤ lcd_height = grind arith in
        let e' : font.height ≤ (r + 1) * font.height = grind arith in
        let w : font.width ≤ (cols + 1) * font.width = grind arith in
        put_chars-cons ch chs x lx ly x (ly + font.height) font color bgcolor f p.0 go (rw h)
          (rw h (omega arith)) (omega arith) (omega arith) (λ f1. later r f1 e (grind arith))

-- Printable text that fits into the lines of `cols + 1` characters between (x, y) and the bottom is
-- drawn without a fault.
pub lcd_put_string_safe :
    (string : List ℕ) (x y : ℕ) (font : FontDef) (color bgcolor cols rows : ℕ) (d : Display)
    (f : Frame)
    → d.frame_buffer ≡ some f
    → AllPrintable font string
    → x + (cols + 1) * font.width ≤ lcd_width
    → y + (rows + 1) * font.height ≤ lcd_height
    → length string ≤ (rows + 1) * (cols + 1)
    → (f' : Frame) × (lcd_put_string string x y font color bgcolor d
        ≡ some (record d { frame_buffer = some f' }))
unfolding lcd_put_string
lcd_put_string_safe string x y font color bgcolor cols rows d f buffer p a b c =
    let (f', run) =
      put_chars_safe string x x y font color bgcolor cols (cols + 1) rows f p a a b (grind arith) in
    (f', rw (buffer, run))

put_rows-overrun :
    (x y ch w : ℕ) (font : FontDef) (color bgcolor n i : ℕ) (f : Frame)
    → font.width ≡ suc w
    → y + i ≤ lcd_height
    → lcd_height < y + i + n
    → put_rows x y ch font color bgcolor n i f ≡ none
unfolding put_rows put_row store
put_rows-overrun x y ch w font color bgcolor zero i f e a b = absurd (omega arith)
put_rows-overrun x y ch w font color bgcolor (suc n) i f e a b =
    elim (Option-cases (font_row font ch i)) [
      | inl h ↦ rw h
      | inr (word, h) ↦ elim (Bool-cases (y + i == lcd_height)) [
        | inl k ↦
            let out : ltb ((x + lcd_width * y) + (0 + lcd_width * i)) frame_size ≡ false =
              ground arith in
            rw (h, e, out)
        | inr k ↦ elim (Option-cases (put_row x y i word color bgcolor font.width 0 f)) [
          | inl l ↦ rw (h, l)
          | inr (f1, l) ↦
              rw (h, l)
                (put_rows-overrun x y ch w font color bgcolor n (i + 1) f1 e (ground arith)
                  (omega arith))
        ]
      ]
    ]

put_char-overrun :
    (x y ch w : ℕ) (font : FontDef) (color bgcolor : ℕ) (f : Frame)
    → font.width ≡ suc w
    → y ≤ lcd_height
    → lcd_height < y + font.height
    → lcd_put_char x y ch font color bgcolor f ≡ none
unfolding lcd_put_char
put_char-overrun x y ch w font color bgcolor f e a b =
    put_rows-overrun x y ch w font color bgcolor font.height 0 f e (omega arith) (omega arith)

-- Two characters of which the first fits at the end of the last line: the second is drawn under the
-- bottom edge, and lcd_put_string writes past the end of the buffer.
pub lcd_put_string-overrun :
    (c1 c2 x y w : ℕ) (string : List ℕ) (font : FontDef) (color bgcolor : ℕ) (d : Display)
    (f : Frame)
    → d.frame_buffer ≡ some f
    → Printable font c1
    → font.width ≡ suc w
    → x + font.width ≤ lcd_width
    → lcd_width < x + font.width + font.width
    → y + font.height ≤ lcd_height
    → lcd_height < y + font.height + font.height
    → lcd_put_string (c1 ∷ c2 ∷ string) x y font color bgcolor d ≡ none
unfolding lcd_put_string put_chars
lcd_put_string-overrun c1 c2 x y w string font color bgcolor d f buffer p e a a' b b' =
    let (f1, drawn, q) = lcd_put_char-painted x y c1 font color bgcolor f p a b in
    let fits : ltb lcd_width (x + font.width) ≡ false = ground arith in
    let full : ltb lcd_width (x + font.width + font.width) ≡ true = ground arith in
    let go : ltb lcd_height (y + font.height) ≡ false = ground arith in
    let small : (x + font.width) % 2 ^ 16 ≡ x + font.width = omega arith in
    let small_y : (y + font.height) % 2 ^ 16 ≡ y + font.height = omega arith in
    let over = put_char-overrun x (y + font.height) c2 w font color bgcolor f1 e b b' in
    rw (buffer, go, fits, drawn, small, go, full, small_y, over)
