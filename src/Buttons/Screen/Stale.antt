-- ===== src/Buttons/Screen/Stale.antt =====
-- Where the drawing of task4 goes wrong: digits that stay, and the end of the line in the address.
use embedded_basecamp.Prelude.{
  ℕ, ◌+◌, ◌-◌, ◌*◌, ◌<◌, ◌≤◌, ◌≡◌, refl, ◌∙◌, true, false, none, some, List, [], ◌∷◌, ◌++◌, ltb,
  arith, length,
}
use embedded_basecamp.Prelude.Int.{pos, ltb_ℤ}
use embedded_basecamp.Prelude.Partial.{◌>>=◌}
use embedded_basecamp.Display.{lcd_width}
use embedded_basecamp.Display.Text.{FontDef}
use embedded_basecamp.Display.Text.Layout.{AllPrintable}
use embedded_basecamp.Display.Text.Line.{cell, line_ink, put_chars-low}
use embedded_basecamp.SpidevPanel.{File, Call}
use embedded_basecamp.SpidevPanel.Screen.{lcd_put_string}
use embedded_basecamp.Buttons.{App, Callback, call, draw_counter_value}
use embedded_basecamp.Buttons.Screen.Shown.{Shows, show_counter_value-Shows}
use embedded_basecamp.Buttons.Screen.{
  Program, Setting, color_black, color_red, font_11x18, font_16x26, draw_ip_address,
  show_counter_value,
}

-- Right of a line a pixel is as before.
cell_beyond :
    (w : ℕ) (chs : List ℕ) (offset : ℕ) → length chs * w ≤ offset → cell w chs offset ≡ none
cell_beyond w [] offset h = refl
cell_beyond w (ch ∷ chs) offset h =
    let far : ltb offset w ≡ false = grind arith in
    let e : length chs * w ≤ offset - w = grind arith in rw far (cell_beyond w chs (offset - w) e)

line_ink-beyond :
    (font : FontDef) (color bgcolor : ℕ) (chs : List ℕ) (x y px py old : ℕ)
    → x + length chs * font.width ≤ px
    → line_ink font color bgcolor chs x y px py old ≡ old
line_ink-beyond font color bgcolor chs x y px py old h =
    let e : length chs * font.width ≤ px - x = omega arith in
    rw (cell_beyond font.width chs (px - x) e) (ground arith)

module _ (setting : Setting) where
  -- fgets keeps the end of the line: an address of at most fifteen characters with one behind it, or
  -- with any character below the space, makes draw_ip_address read in front of the font.
  pub draw_ip_address-newline :
      (s : Program) (address rest : List ℕ) (ch : ℕ)
      → s.local_ip ≡ none
      → ch < 32
      → length address ≤ 15
      → draw_ip_address setting (some (address ++ ch ∷ rest)) s ≡ none
  unfolding draw_ip_address lcd_put_string
  draw_ip_address-newline s address rest ch unread low short =
      let fault =
        put_chars-low address rest ch 60 60 180 17 (font_11x18 setting) color_red color_black
          s.screen.frame_buffer refl low (omega arith) (omega arith) in
      rw (unread, fault) refl

module _ (setting : Setting)
    (open_ok : (cs : List Call) (f : File) → ltb_ℤ (setting.opens cs f) (pos 0) ≡ false) where
  open setting use {opens, decimal}

  -- A counter that is drawn, changed by one of its handlers and drawn again, with no more digits than
  -- before: the new digits stand over the old ones, and right of them the old digits are still shown,
  -- such as 90 after 10 and 9.
  pub show_counter_value-stale :
      (s : Program) (c : Callback)
      → s.panel.app.counter_rect_invalidated ≡ true
      → AllPrintable (font_16x26 setting) (decimal s.panel.app.counter_value)
      → length (decimal s.panel.app.counter_value) ≤ 8
      → (a : App) → call c (draw_counter_value s.panel).app ≡ some a
      → a.counter_rect_invalidated ≡ true
      → AllPrintable (font_16x26 setting) (decimal a.counter_value)
      → length (decimal a.counter_value) ≤ length (decimal s.panel.app.counter_value)
      → (s1 : Program) × (s2 : Program) × (show_counter_value setting s ≡ some s1)
        × ((call c s1.panel.app >>= λ b.
              show_counter_value setting (record s1 { panel = record s1.panel { app = b } }))
            ≡ some s2)
        × Shows
            (font_16x26 setting)
            (decimal a.counter_value)
            112
            107
            s1.screen.frame_buffer
            s2.screen.frame_buffer
        × ((px py : ℕ)
            → px < lcd_width
            → 112 + length (decimal a.counter_value) * 16 ≤ px
            → s2.screen.frame_buffer (px + lcd_width * py)
              ≡ line_ink
                  (font_16x26 setting)
                  color_red
                  color_black
                  (decimal s.panel.app.counter_value)
                  112
                  107
                  px
                  py
                  (s.screen.frame_buffer (px + lcd_width * py)))
  show_counter_value-stale s c invalid ok short a changed again ok' shorter =
      let (s1, run1, panel1, ip1, q1) =
        show_counter_value-Shows setting open_ok s invalid ok short in
      let next : Program = record s1 { panel = record s1.panel { app = a } } in
      let (s2, run2, panel2, ip2, q2) =
        show_counter_value-Shows setting open_ok next again ok' (omega arith) in
      let called : call c s1.panel.app ≡ some a = rw panel1 changed in
      (
        s1,
        s2,
        run1,
        rw called run2,
        q2,
        λ px py h far.
            q2 px py h
            ∙ line_ink-beyond (font_16x26 setting) color_red color_black (decimal a.counter_value)
                112 107 px py _ far
            ∙ q1 px py h,
      )
