-- ===== src/SpidevPanel/Same.antt =====
-- That the panel of task4's driver gets what the panel of the kernel's driver gets.
use embedded_basecamp.Prelude.{
  ℕ, zero, suc, ◌+◌, ◌*◌, ◌≡◌, refl, ap, sym, ◌∙◌, true, false, Option, none, some, List, [], ◌∷◌,
  ◌++◌, arith, length, ◌==◌, Bool-cases, Option-cases, inl, inr, take, drop, append-nil,
}
use embedded_basecamp.Prelude.Int.{ℤ, pos, ltb_ℤ}
use embedded_basecamp.Display.{
  Wire, Display, Frame, fresh, lcd_width, lcd_write_command, lcd_write_data,
}
use embedded_basecamp.Display.Frame.{store, swapped, off_screen}
use embedded_basecamp.Display.Screen as Driver
use embedded_basecamp.Display.Text as DriverText
use embedded_basecamp.Display.Text.{FontDef, put_chars}
use embedded_basecamp.Display.Commands as DriverCommands
use embedded_basecamp.Display.Commands.{commands_transactions_count, read_bytes}
use embedded_basecamp.Display.Commands.Protocol.{Transaction, encoded, read_bytes-append}
use embedded_basecamp.SpidevPanel.{File, Call}
use embedded_basecamp.SpidevPanel.Screen.{
  Panel, commands, command, pause, lcd_draw_pixel, lcd_fill_screen, send_command, send_commands,
  init_display_internal, lcd_put_string,
}
use embedded_basecamp.SpidevPanel.Received.{Line, receive, hear_all, hear_all-append, Sends-append}
use embedded_basecamp.SpidevPanel.Twin.{
  Drawing, start, window, update, pixel, rectangle, screen, string, drive, drive_all, draw,
  draw_all, Both, Both-bind, Both-known, Alike, framed-Alike, command-Alike, transmit-Alike,
  update-Alike, painted-Alike, unless_off, rectangle-Alike, window-Alike,
}

-- The frame buffers are equal, and the panels have received the same bytes, each with the same level of
-- the D/C pin.
abbrev pub SameScreen : Display → Panel → Type 0
SameScreen d p =
    (d.frame_buffer ≡ some p.frame_buffer)
    × ((l : Line) → hear_all d.wires l ≡ receive p.calls none l)

-- A pause of either driver is not heard.
driver_pause-Alike :
    (n : ℕ) (d : Display) (p : Panel) → Alike d p → Alike (DriverCommands.pause n d) p
driver_pause-Alike n d p a = elim (Bool-cases (n == 0)) [
  | inl h ↦ rw h a
  | inr h ↦ rw h (record {
    device = a.device;
    frame = a.frame;
    line = record {
      sends = λ rest l.
          a.line.sends rest l
          ∙ ap (receive rest none) (sym (hear_all-append d.wires (Wire.mdelay n ∷ []) l));
    };
  })
]

-- A transaction, with the delay that the other table has.
abbrev Pair : Type 0
Pair = Transaction × ℕ

abbrev ours : List Pair → List Transaction
ours [] = []
ours ((t, delay) ∷ ts) = t ∷ ours ts

abbrev theirs : List Pair → List Transaction
theirs [] = []
theirs ((t, delay) ∷ ts) = record t { delay = delay } ∷ theirs ts

-- The reading of n transactions of two tables.
paired : ℕ → List ℕ → List ℕ → List Pair
paired zero p q = []
paired (suc n) (cmd ∷ num_args ∷ delay ∷ p) (cmd' ∷ num_args' ∷ delay' ∷ q) =
    (record { cmd = cmd; delay = delay; args = take num_args p }, delay')
    ∷ paired n (drop num_args p) (drop num_args q)
paired (suc n) p q = []

module _ (opens : List Call → File → ℤ) where
  pause-Alike : (n : ℕ) (d : Display) (p : Panel) → Alike d p → Alike d (pause opens n p)
  pause-Alike n d p a = elim (Bool-cases (n == 0)) [
    | inl h ↦ rw h a
    | inr h ↦ rw h (record {
      device = a.device;
      frame = a.frame;
      line = Sends-append a.line (record { sends = λ rest l. refl });
    })
  ]

module _ (opens : List Call → File → ℤ)
    (open_ok : (cs : List Call) (f : File) → ltb_ℤ (opens cs f) (pos 0) ≡ false) where
  send_command-Alike :
      (cmd delay delay' : ℕ) (args rest rest' : List ℕ) (d : Display) (p : Panel)
      → Alike d p
      → (d' : Display) × (p' : Panel) × (DriverCommands.send_command cmd
            (length args)
            delay
            (args ++ rest)
            d
          ≡ some (rest, d'))
        × (send_command opens cmd (length args) delay' (args ++ rest') p ≡ some (rest', p'))
        × Alike d' p'
  unfolding DriverCommands.send_command send_command
  send_command-Alike cmd delay delay' [] rest rest' d p a = (
    DriverCommands.pause delay (lcd_write_command cmd d),
    pause opens delay' (command opens cmd p),
    refl,
    refl,
    pause-Alike opens delay' _ _
        (driver_pause-Alike delay _ _ (command-Alike opens open_ok cmd d p a)),
  )
  send_command-Alike cmd delay delay' (b ∷ bs) rest rest' d p a =
      let more : (length (b ∷ bs) == 0) ≡ false = ground arith in
      let (p1, run, a1) =
        transmit-Alike opens open_ok (b ∷ bs) (lcd_write_command cmd d) (command opens cmd p)
          (command-Alike opens open_ok cmd d p a) in
      (
        DriverCommands.pause delay (lcd_write_data (b ∷ bs) (lcd_write_command cmd d)),
        pause opens delay' p1,
        rw (more, read_bytes-append (b ∷ bs) rest) refl,
        rw (more, read_bytes-append (b ∷ bs) rest', run) refl,
        pause-Alike opens delay' _ _ (driver_pause-Alike delay _ _ a1),
      )

  send_commands-Alike :
      (ts : List Pair) (d : Display) (p : Panel)
      → Alike d p
      → Both Alike
          (DriverCommands.send_commands (length ts) (encoded (ours ts)) d)
          (send_commands opens (length ts) (encoded (theirs ts)) p)
  unfolding DriverCommands.send_commands send_commands read_bytes
  send_commands-Alike [] d p a = a
  send_commands-Alike ((t, delay) ∷ ts) d p a =
      let (d1, p1, run, run', a1) =
        send_command-Alike t.cmd t.delay delay t.args (encoded (ours ts)) (encoded (theirs ts)) d p
          a in
      rw (run, run') (send_commands-Alike ts d1 p1 a1)

  start-Alike :
      (d : Display) (p : Panel)
      → Alike d p
      → Both Alike (DriverCommands.init_display_internal d) (init_display_internal opens p)
  unfolding DriverCommands.init_display_internal init_display_internal paired
  start-Alike d p a =
      send_commands-Alike (paired commands_transactions_count DriverCommands.commands commands) d p
        a

  pixel-Alike :
      (x y color : ℕ) (d : Display) (p : Panel)
      → Alike d p
      → Both Alike (Driver.lcd_draw_pixel x y color d) (lcd_draw_pixel opens x y color p)
  unfolding Driver.lcd_draw_pixel lcd_draw_pixel
  pixel-Alike x y color d p a =
      unless_off opens open_ok (off_screen x y) d p _ _ a
        (painted-Alike opens open_ok (store (x + lcd_width * y) (swapped color)) d p a)

  string-Alike :
      (text : List ℕ) (x y : ℕ) (font : FontDef) (color bgcolor : ℕ) (d : Display) (p : Panel)
      → Alike d p
      → Both Alike
          (DriverText.lcd_put_string text x y font color bgcolor d)
          (lcd_put_string text x y font color bgcolor p)
  unfolding DriverText.lcd_put_string lcd_put_string
  string-Alike text x y font color bgcolor d p a =
      Both-known Alike d.frame_buffer p.frame_buffer _ _ a.frame
        (elim (Option-cases (put_chars text x x y font color bgcolor p.frame_buffer)) [
          | inl h ↦ rw h tt
          | inr (f, h) ↦ rw h (framed-Alike d p a f)
        ])

  drive-draw :
      (c : Drawing) (d : Display) (p : Panel) → Alike d p → Both Alike (drive c d) (draw opens c p)
  unfolding Driver.lcd_fill_screen lcd_fill_screen
  drive-draw start d p a = start-Alike d p a
  drive-draw (window x0 y0 x1 y1) d p a = window-Alike opens open_ok x0 y0 x1 y1 d p a
  drive-draw update d p a = update-Alike opens open_ok d p a
  drive-draw (pixel x y color) d p a = pixel-Alike x y color d p a
  drive-draw (rectangle x y w h color) d p a = rectangle-Alike opens open_ok x y w h color d p a
  drive-draw (screen color) d p a = rectangle-Alike opens open_ok 0 0 239 239 color d p a
  drive-draw (string text x y font color bgcolor) d p a =
      string-Alike text x y font color bgcolor d p a

  drive_all-Alike :
      (cs : List Drawing) (d : Display) (p : Panel)
      → Alike d p
      → Both Alike (drive_all cs d) (draw_all opens cs p)
  drive_all-Alike [] d p a = a
  drive_all-Alike (c ∷ cs) d p a =
      Both-bind Alike (drive c d) (draw opens c p) (drive_all cs) (draw_all opens cs)
        (drive-draw c d p a) (λ d' p'. drive_all-Alike cs d' p')

  Both-map :
      {P Q : Display → Panel → Type 0} (d : Option Display) (p : Option Panel)
      → ((x : Display) (y : Panel) → P x y → Q x y)
      → Both P d p
      → Both Q d p
  Both-map none none f h = tt
  Both-map none (some p) f h = h
  Both-map (some d) none f h = h
  Both-map (some d) (some p) f h = f d p h

  -- As long as the files of the pins open: of the same calls from the same frame buffer, either both
  -- drivers fault, or both end with the same frame buffer and their panels have received the same
  -- bytes, each with the same level of the D/C pin, the start's table included. (The pauses differ.)
  pub drive_all-draw_all :
      (cs : List Drawing) (fd : ℤ) (f : Frame)
      → Both
          (λ d p.
            (d.frame_buffer ≡ some p.frame_buffer)
            × ((l : Line) → hear_all d.wires l ≡ receive p.calls none l))
          (drive_all cs (record fresh { device = true; frame_buffer = some f }))
          (draw_all opens cs (record { fd = fd; frame_buffer = f; calls = [] }))
  drive_all-draw_all cs fd f =
      let from : Alike (record fresh { device = true; frame_buffer = some f })
          (record { fd = fd; frame_buffer = f; calls = [] }) =
        record { device = refl; frame = refl; line = record { sends = λ rest l. refl } } in
      Both-map {P = Alike} {Q = SameScreen} _ _
        (λ d p a. (
          a.frame,
          λ l. sym (a.line.sends [] l) ∙ ap (λ cs. receive cs none l) (append-nil p.calls),
        ))
        (drive_all-Alike cs _ _ from)
