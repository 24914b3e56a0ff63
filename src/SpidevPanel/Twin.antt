-- ===== src/SpidevPanel/Twin.antt =====
-- The two drivers of the panel, the kernel's (Display) and the one of task4 (SpidevPanel.Screen), under
-- the same calls.
use embedded_basecamp.Prelude.{
  ℕ, ◌/◌, ◌%◌, ◌≡◌, refl, ap, sym, subst, ◌∙◌, Bool, true, false, Option, none, some, List, [], ◌∷◌,
  if◌then◌else◌, Option-cases, inl, inr,
}
use embedded_basecamp.Prelude.Int.{ℤ, pos, ltb_ℤ}
use embedded_basecamp.Prelude.Partial.{◌>>=◌}
use embedded_basecamp.Display.{
  Wire, Display, Frame, lcd_width, lcd_height, lcd_write_command, lcd_write_data,
}
use embedded_basecamp.Display.Frame.{frame_size, fill_rows, clipped, off_screen}
use embedded_basecamp.Display.Screen as Driver
use embedded_basecamp.Display.Screen.{bytes_from}
use embedded_basecamp.Display.Text as DriverText
use embedded_basecamp.Display.Text.{FontDef, put_chars}
use embedded_basecamp.Display.Commands as DriverCommands
use embedded_basecamp.Display.Commands.Protocol.{
  with_wires, lcd_write_command-on, lcd_write_data-on,
}
use embedded_basecamp.SpidevPanel.{File, Call, value, pin_dc}
use embedded_basecamp.SpidevPanel.Screen.{
  Panel, with_calls, command, transmit, lcd_set_address_window, lcd_update_screen, lcd_draw_pixel,
  lcd_fill_rectangle, lcd_fill_screen, init_display_internal, lcd_put_string,
}
use embedded_basecamp.SpidevPanel.Received.{
  Line, receive, hear_all, hear_all-append, Sends, Sends-append, lcd_write_command-Sends,
  lcd_write_data-Sends,
}

-- The calls of a program that draws.
pub data Drawing : Type 0 where
  start : Drawing
  window : (x0 y0 x1 y1 : ℕ) → Drawing
  update : Drawing
  pixel : (x y color : ℕ) → Drawing
  rectangle : (x y w h color : ℕ) → Drawing
  screen : (color : ℕ) → Drawing
  string : (text : List ℕ) (x y : ℕ) → FontDef → (color bgcolor : ℕ) → Drawing

-- The kernel's driver.
abbrev pub drive : Drawing → Display → Option Display
drive start d = DriverCommands.init_display_internal d
drive (window x0 y0 x1 y1) d = some (Driver.lcd_set_address_window x0 y0 x1 y1 d)
drive update d = Driver.lcd_update_screen d
drive (pixel x y color) d = Driver.lcd_draw_pixel x y color d
drive (rectangle x y w h color) d = Driver.lcd_fill_rectangle x y w h color d
drive (screen color) d = Driver.lcd_fill_screen color d
drive (string text x y font color bgcolor) d =
    DriverText.lcd_put_string text x y font color bgcolor d

abbrev pub drive_all : List Drawing → Display → Option Display
drive_all [] d = some d
drive_all (c ∷ cs) d = drive c d >>= drive_all cs

-- Both fault, or their results are related.
abbrev pub Both : {A B : Type 0} → (A → B → Type 0) → Option A → Option B → Type 0
Both P none none = Unit
Both P none (some b) = ⊥
Both P (some a) none = ⊥
Both P (some a) (some b) = P a b

-- The kernel's device is there, the frame buffers are equal, and the panel has received the same
-- bytes with the same levels.
pub record Alike (d : Display) (p : Panel) : Type 0 where
  pub device : d.device ≡ true
  pub frame : d.frame_buffer ≡ some p.frame_buffer
  pub line : Sends p.calls (hear_all d.wires)

pub Both-bind :
    {A B : Type 0} (P : A → B → Type 0) (a : Option A) (b : Option B) (f : A → Option A)
    (g : B → Option B)
    → Both P a b
    → ((x : A) (y : B) → P x y → Both P (f x) (g y))
    → Both P (a >>= f) (b >>= g)
Both-bind P none none f g h k = tt
Both-bind P none (some b) f g h k = absurd h
Both-bind P (some a) none f g h k = absurd h
Both-bind P (some a) (some b) f g h k = k a b h

pub Both-known :
    {A B F : Type 0} (P : A → B → Type 0) (o : Option F) (f : F) (k : F → Option A) (b : Option B)
    → o ≡ some f
    → Both P (k f) b
    → Both P (o >>= k) b
Both-known P o f k b e h = subst (λ z. Both P (z >>= k) b) (sym e) h

module _ (d : Display) (p : Panel) (alike : Alike d p) where
  step-Alike :
      (ws : List Wire) (cs : List Call) (f : Line → Line)
      → Sends cs f
      → ((l : Line) → hear_all ws l ≡ f l)
      → Alike (with_wires d ws) (with_calls p cs)
  step-Alike ws cs f s same = record {
    device = alike.device;
    frame = alike.frame;
    line = record {
      sends = λ rest l.
          (Sends-append alike.line s).sends rest l
          ∙ ap (receive rest none)
              (sym (same (hear_all d.wires l)) ∙ sym (hear_all-append d.wires ws l));
    };
  }

  pub framed-Alike :
      (f : Frame) → Alike (record d { frame_buffer = some f }) (record p { frame_buffer = f })
  framed-Alike f = record { device = alike.device; frame = refl; line = alike.line }

module _ (opens : List Call → File → ℤ) where
  abbrev pub draw : Drawing → Panel → Option Panel
  draw start p = init_display_internal opens p
  draw (window x0 y0 x1 y1) p = lcd_set_address_window opens x0 y0 x1 y1 p
  draw update p = lcd_update_screen opens p
  draw (pixel x y color) p = lcd_draw_pixel opens x y color p
  draw (rectangle x y w h color) p = lcd_fill_rectangle opens x y w h color p
  draw (screen color) p = lcd_fill_screen opens color p
  draw (string text x y font color bgcolor) p = lcd_put_string text x y font color bgcolor p

  abbrev pub draw_all : List Drawing → Panel → Option Panel
  draw_all [] p = some p
  draw_all (c ∷ cs) p = draw c p >>= draw_all cs

module _ (opens : List Call → File → ℤ)
    (open_ok : (cs : List Call) (f : File) → ltb_ℤ (opens cs f) (pos 0) ≡ false) where
  pub command-Alike :
      (cmd : ℕ) (d : Display) (p : Panel)
      → Alike d p
      → Alike (lcd_write_command cmd d) (command opens cmd p)
  unfolding command
  command-Alike cmd d p a = rw (lcd_write_command-on cmd d a.device) (
      step-Alike d p a _ _ _
        (lcd_write_command-Sends (opens p.calls (value pin_dc)) p.fd cmd
          (open_ok p.calls (value pin_dc)))
        (λ l. refl))

  pub transmit-Alike :
      (buff : List ℕ) (d : Display) (p : Panel)
      → Alike d p
      → (p' : Panel) × (transmit opens buff p ≡ some p') × Alike (lcd_write_data buff d) p'
  unfolding transmit
  transmit-Alike buff d p a =
      let (cs, run, s) =
        lcd_write_data-Sends (opens p.calls (value pin_dc)) p.fd buff
          (open_ok p.calls (value pin_dc)) in
      (
        with_calls p cs,
        rw run refl,
        rw (lcd_write_data-on buff d a.device) (step-Alike d p a _ cs _ s (λ l. refl)),
      )

  pub update-Alike :
      (d : Display) (p : Panel)
      → Alike d p
      → Both Alike (Driver.lcd_update_screen d) (lcd_update_screen opens p)
  unfolding Driver.lcd_update_screen lcd_update_screen
  update-Alike d p a =
      let (p', run, a') = transmit-Alike (bytes_from p.frame_buffer frame_size 0) d p a in
      Both-known Alike d.frame_buffer p.frame_buffer _ _ a.frame (rw run a')

  -- A change of the frame buffers, and the update behind it.
  pub painted-Alike :
      (g : Frame → Option Frame) (d : Display) (p : Panel)
      → Alike d p
      → Both Alike
          (d.frame_buffer >>= λ f.
            g f >>= λ f'. Driver.lcd_update_screen (record d { frame_buffer = some f' }))
          (g p.frame_buffer >>= λ f. lcd_update_screen opens (record p { frame_buffer = f }))
  painted-Alike g d p a =
      Both-known Alike d.frame_buffer p.frame_buffer _ _ a.frame
        (elim (Option-cases (g p.frame_buffer)) [
          | inl h ↦ rw h tt
          | inr (f, h) ↦ rw h (update-Alike _ _ (framed-Alike d p a f))
        ])

  pub unless_off :
      (off : Bool) (d : Display) (p : Panel) (x : Option Display) (y : Option Panel)
      → Alike d p
      → Both Alike x y
      → Both Alike (if off then some d else x) (if off then some p else y)
  unless_off true d p x y a b = a
  unless_off false d p x y a b = b

  pub rectangle-Alike :
      (x y w h color : ℕ) (d : Display) (p : Panel)
      → Alike d p
      → Both Alike
          (Driver.lcd_fill_rectangle x y w h color d)
          (lcd_fill_rectangle opens x y w h color p)
  unfolding Driver.lcd_fill_rectangle lcd_fill_rectangle
  rectangle-Alike x y w h color d p a =
      unless_off (off_screen x y) d p _ _ a (
        painted-Alike (fill_rows x y (clipped lcd_width x w) color (clipped lcd_height y h) 0) d p
          a)

  pub window-Alike :
      (x0 y0 x1 y1 : ℕ) (d : Display) (p : Panel)
      → Alike d p
      → Both Alike
          (some (Driver.lcd_set_address_window x0 y0 x1 y1 d))
          (lcd_set_address_window opens x0 y0 x1 y1 p)
  unfolding Driver.lcd_set_address_window lcd_set_address_window
  window-Alike x0 y0 x1 y1 d p a =
      let xs : List ℕ = x0 / 256 % 256 ∷ x0 % 256 ∷ x1 / 256 % 256 ∷ x1 % 256 ∷ [] in
      let ys : List ℕ = y0 / 256 % 256 ∷ y0 % 256 ∷ y1 / 256 % 256 ∷ y1 % 256 ∷ [] in
      let (p1, run1, a1) = transmit-Alike xs _ (command opens 0x2a p) (command-Alike 0x2a d p a) in
      let (p2, run2, a2) =
        transmit-Alike ys _ (command opens 0x2b p1) (command-Alike 0x2b _ p1 a1) in
      rw (run1, run2) (command-Alike 0x2c _ p2 a2)
