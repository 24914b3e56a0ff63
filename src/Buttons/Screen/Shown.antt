-- ===== src/Buttons/Screen/Shown.antt =====
-- What stands on the panel of task4 after its drawing functions.
use embedded_basecamp.Prelude.{
  ℕ, ◌+◌, ◌*◌, ◌<◌, ◌≤◌, ◌≡◌, refl, ◌∙◌, true, false, none, some, List, if_true, arith, length,
}
use embedded_basecamp.Prelude.Int.{pos, ltb_ℤ}
use embedded_basecamp.Display.{Frame, lcd_width, lcd_height}
use embedded_basecamp.Display.Frame.{frame_size}
use embedded_basecamp.Display.Screen.{bytes_from}
use embedded_basecamp.Display.Text.{FontDef}
use embedded_basecamp.Display.Text.Layout.{AllPrintable}
use embedded_basecamp.Display.Text.Line.{line_ink, put_chars-painted}
use embedded_basecamp.SpidevPanel.{File, Call, value, pin_dc}
use embedded_basecamp.SpidevPanel.Screen as Spidev
use embedded_basecamp.SpidevPanel.Screen.{with_calls, transmit, lcd_put_string, lcd_update_screen}
use embedded_basecamp.SpidevPanel.Received.{lcd_write_data-Sends}
use embedded_basecamp.Buttons.{draw_counter_value}
use embedded_basecamp.Buttons.Screen.{
  Program, Setting, color_black, color_red, font_11x18, font_16x26, draw_current_time,
  draw_ip_address, show_counter_value, draw_round,
}

-- The screen shows `text` from (x, y) on, in red on black, where it was `old`.
abbrev pub Shows : FontDef → List ℕ → (x y : ℕ) → (old new : Frame) → Type 0
Shows font text x y old new =
    (px py : ℕ)
    → px < lcd_width
    → new (px + lcd_width * py)
      ≡ line_ink font color_red color_black text x y px py (old (px + lcd_width * py))

module _ (setting : Setting)
    (open_ok : (cs : List Call) (f : File) → ltb_ℤ (setting.opens cs f) (pos 0) ≡ false) where
  open setting use {opens, decimal}

  update_run :
      (p : Spidev.Panel) → (cs : List Call) × (lcd_update_screen opens p ≡ some (with_calls p cs))
  unfolding lcd_update_screen transmit
  update_run p =
      let (cs, run, s) =
        lcd_write_data-Sends (opens p.calls (value pin_dc)) p.fd
          (bytes_from p.frame_buffer frame_size 0) (open_ok p.calls (value pin_dc)) in
      (cs, rw run refl)

  put_run :
      (font : FontDef) (text : List ℕ) (x y : ℕ) (p : Spidev.Panel)
      → AllPrintable font text
      → x + length text * font.width ≤ lcd_width
      → y + font.height ≤ lcd_height
      → (f : Frame) × (lcd_put_string text x y font color_red color_black p
          ≡ some (record p { frame_buffer = f }))
        × Shows font text x y p.frame_buffer f
  unfolding lcd_put_string
  put_run font text x y p ok a b =
      let (f, run, q) =
        put_chars-painted text x x y font color_red color_black p.frame_buffer ok a b in
      (f, rw run refl, q)

  -- When the rectangle of the counter is invalid and the counter has at most eight printable digits,
  -- the counter is drawn at its place without a fault.
  pub show_counter_value-Shows :
      (s : Program)
      → s.panel.app.counter_rect_invalidated ≡ true
      → AllPrintable (font_16x26 setting) (decimal s.panel.app.counter_value)
      → length (decimal s.panel.app.counter_value) ≤ 8
      → (s' : Program) × (show_counter_value setting s ≡ some s')
        × (s'.panel ≡ draw_counter_value s.panel)
        × (s'.local_ip ≡ s.local_ip)
        × Shows
            (font_16x26 setting)
            (decimal s.panel.app.counter_value)
            112
            107
            s.screen.frame_buffer
            s'.screen.frame_buffer
  unfolding show_counter_value
  show_counter_value-Shows s invalid ok short =
      let text = decimal s.panel.app.counter_value in
      let (f, drawn, q) =
        put_run (font_16x26 setting) text 112 107 s.screen ok (omega arith) (omega arith) in
      let (cs, sent) = update_run (record s.screen { frame_buffer = f }) in
      (
        record s {
          screen = with_calls (record s.screen { frame_buffer = f }) cs;
          panel = draw_counter_value s.panel;
        },
        rw (drawn, sent) (if_true _ _ _ invalid),
        refl,
        refl,
        q,
      )

  shown_time :
      (time_text : List ℕ) (s : Program)
      → AllPrintable (font_11x18 setting) time_text
      → length time_text ≤ 16
      → (s' : Program) × (draw_current_time setting time_text s ≡ some s')
        × (s'.panel ≡ s.panel)
        × (s'.local_ip ≡ s.local_ip)
        × Shows (font_11x18 setting) time_text 60 40 s.screen.frame_buffer s'.screen.frame_buffer
  unfolding draw_current_time
  shown_time time_text s ok short =
      let (f, drawn, q) =
        put_run (font_11x18 setting) time_text 60 40 s.screen ok (omega arith) (omega arith) in
      let (cs, sent) = update_run (record s.screen { frame_buffer = f }) in
      (
        record s { screen = with_calls (record s.screen { frame_buffer = f }) cs },
        rw (drawn, sent) refl,
        refl,
        refl,
        q,
      )

  shown_address :
      (address : List ℕ) (s : Program)
      → s.local_ip ≡ none
      → AllPrintable (font_11x18 setting) address
      → length address ≤ 16
      → (s' : Program) × (draw_ip_address setting (some address) s ≡ some s')
        × (s'.panel ≡ s.panel)
        × (s'.local_ip ≡ some address)
        × Shows (font_11x18 setting) address 60 180 s.screen.frame_buffer s'.screen.frame_buffer
  unfolding draw_ip_address
  shown_address address s unread ok short =
      let (f, drawn, q) =
        put_run (font_11x18 setting) address 60 180 s.screen ok (omega arith) (omega arith) in
      (
        record s { screen = record s.screen { frame_buffer = f }; local_ip = some address },
        rw (unread, drawn) refl,
        refl,
        refl,
        q,
      )

  -- A round that finds the counter invalidated and no address kept, with an address that has no end
  -- of line: if no open of a file of the pins ever fails, and the texts are printable and fit their
  -- lines, with at most 8 characters of the counter and 16 of each of the others, the three are drawn
  -- without a fault, each at its place; the address is kept, and every other pixel is as before.
  pub draw_round-Shows :
      (s : Program) (time_text address : List ℕ)
      → s.panel.app.counter_rect_invalidated ≡ true
      → s.local_ip ≡ none
      → AllPrintable (font_16x26 setting) (decimal s.panel.app.counter_value)
      → AllPrintable (font_11x18 setting) time_text
      → AllPrintable (font_11x18 setting) address
      → length (decimal s.panel.app.counter_value) ≤ 8
      → length time_text ≤ 16
      → length address ≤ 16
      → (s' : Program) × (draw_round setting time_text (some address) s ≡ some s')
        × (s'.panel ≡ draw_counter_value s.panel)
        × (s'.local_ip ≡ some address)
        × ((px py : ℕ)
            → px < lcd_width
            → s'.screen.frame_buffer (px + lcd_width * py)
              ≡ line_ink (font_11x18 setting) color_red color_black address 60 180 px py (
                  line_ink (font_11x18 setting) color_red color_black time_text 60 40 px py (
                    line_ink
                      (font_16x26 setting)
                      color_red
                      color_black
                      (decimal s.panel.app.counter_value)
                      112
                      107
                      px
                      py
                      (s.screen.frame_buffer (px + lcd_width * py)))))
  unfolding draw_round
  draw_round-Shows s time_text address invalid unread ok ok' ok'' short short' short'' =
      let (s1, run1, panel1, ip1, q1) = show_counter_value-Shows s invalid ok short in
      let (s2, run2, panel2, ip2, q2) = shown_time time_text s1 ok' short' in
      let (s3, run3, panel3, ip3, q3) =
        shown_address address s2 (ip2 ∙ ip1 ∙ unread) ok'' short'' in
      (
        s3,
        rw (run1, run2) run3,
        panel3 ∙ panel2 ∙ panel1,
        ip3,
        λ px py h. q3 px py h ∙ rw (q2 px py h) (rw (q1 px py h) refl),
      )
