-- ===== src/SpidevPanel/Received.antt =====
-- What the panel receives from either driver: bytes, each with the level of the D/C pin. From the
-- calls of the kernel (Display), and from the calls of the operating system (SpidevPanel).
use embedded_basecamp.Prelude.{
  ℕ, zero, suc, ◌≤◌, ◌≡◌, refl, ap, sym, ◌∙◌, true, false, Option, none, some, List, [], ◌∷◌, ◌++◌,
  arith, length, take, drop, ltb, leb, ◌==◌, if◌then◌else◌, Bool-cases, inl, inr, append_assoc,
}
use embedded_basecamp.Prelude.Int.{ℤ, pos, ltb_ℤ}
use embedded_basecamp.Bytes.{length-drop}
use embedded_basecamp.Display.{Wire, lcd_pin_dc}
use embedded_basecamp.SpidevPanel.{
  File, value, Text, one_text, zero_text, Call, open_file, write_file, read_file, close_file,
  setting, message, usleep, sleep, gpio_set_value, spi_write, data_size, write_pieces, pin_dc,
  lcd_write_command, lcd_write_data,
}
use embedded_basecamp.SpidevPanel.Pieces.{take-drop}

-- The level of the pin, and the bytes with the level at which each came.
pub record Line : Type 0 where
  pub level : ℕ
  pub received : List (ℕ × ℕ)

abbrev pub tagged : ℕ → List ℕ → List (ℕ × ℕ)
tagged level [] = []
tagged level (b ∷ bs) = (level, b) ∷ tagged level bs

abbrev pub take_in : List ℕ → Line → Line
take_in bytes l = record l { received = l.received ++ tagged l.level bytes }

abbrev pub set_level : ℕ → Line → Line
set_level level l = record l { level = level }

-- From the calls of the kernel.
abbrev pub hear : Wire → Line → Line
hear (Wire.gpio_set_value pin v) l = if pin == lcd_pin_dc then set_level v l else l
hear (Wire.spi_sync bytes) l = take_in bytes l
hear (Wire.gpio_request pin) l = l
hear (Wire.gpio_direction_output pin v) l = if pin == lcd_pin_dc then set_level v l else l
hear (Wire.gpio_direction_input pin) l = l
hear (Wire.gpio_free pin) l = l
hear Wire.spi_unregister_device l = l
hear (Wire.mdelay n) l = l
hear Wire.kfree l = l

abbrev pub hear_all : List Wire → Line → Line
hear_all [] l = l
hear_all (w ∷ ws) l = hear_all ws (hear w l)

pub hear_all-append :
    (vs ws : List Wire) (l : Line) → hear_all (vs ++ ws) l ≡ hear_all ws (hear_all vs l)
hear_all-append [] ws l = refl
hear_all-append (v ∷ vs) ws l = hear_all-append vs ws (hear v l)

-- From the calls of the operating system: a text goes to the file that was opened last, as it does in
-- gpio_module.c. A 1 or a 0 in the file of the pin sets its level.
abbrev pub written : Option File → Text → Line → Line
written (some (value pin)) one_text l = if pin == pin_dc then set_level 1 l else l
written (some (value pin)) zero_text l = if pin == pin_dc then set_level 0 l else l
written file text l = l

abbrev pub receive : List Call → Option File → Line → Line
receive [] last l = l
receive (open_file f ∷ cs) last l = receive cs (some f) l
receive (write_file fd text ∷ cs) last l = receive cs last (written last text l)
receive (message fd bytes ∷ cs) last l = receive cs last (take_in bytes l)
receive (close_file fd ∷ cs) last l = receive cs none l
receive (read_file fd ∷ cs) last l = receive cs last l
receive (setting fd ∷ cs) last l = receive cs last l
receive (usleep n ∷ cs) last l = receive cs last l
receive (sleep n ∷ cs) last l = receive cs last l

tagged-append :
    (level : ℕ) (bs cs : List ℕ) → tagged level (bs ++ cs) ≡ tagged level bs ++ tagged level cs
tagged-append level [] cs = refl
tagged-append level (b ∷ bs) cs = ap (λ z. (level, b) ∷ z) (tagged-append level bs cs)

pub take_in-append : (bs cs : List ℕ) (l : Line) → take_in cs (take_in bs l) ≡ take_in (bs ++ cs) l
take_in-append bs cs l =
    ap (λ z. record l { received = z })
      (append_assoc l.received (tagged l.level bs) (tagged l.level cs)
        ∙ ap (λ z. l.received ++ z) (sym (tagged-append l.level bs cs)))

-- Calls that leave no file open, and do to the line what `f` does.
pub record Sends (cs : List Call) (f : Line → Line) : Type 0 where
  pub sends : (rest : List Call) (l : Line) → receive (cs ++ rest) none l ≡ receive rest none (f l)

pub Sends-append :
    {cs ds : List Call} {f g : Line → Line}
    → Sends cs f
    → Sends ds g
    → Sends (cs ++ ds) (λ l. g (f l))
Sends-append {cs} {ds} {f} a b = record {
  sends = λ rest l. rw (append_assoc cs ds rest) (a.sends (ds ++ rest) l ∙ b.sends rest (f l));
}

set_value-Sends :
    (opened : ℤ) (v : ℕ)
    → ltb_ℤ opened (pos 0) ≡ false
    → leb v 1 ≡ true
    → Sends (gpio_set_value opened pin_dc v).1 (set_level v)
unfolding gpio_set_value
set_value-Sends opened zero h k = record { sends = λ rest l. rw h refl }
set_value-Sends opened (suc zero) h k = record { sends = λ rest l. rw h refl }
set_value-Sends opened (suc (suc v)) h k = absurd (ground arith)

-- With enough rounds the pieces are the data.
write_pieces-Sends :
    (fuel : ℕ) (fd : ℤ) (bytes : List ℕ)
    → length bytes ≤ fuel
    → (cs : List Call) × (write_pieces fuel fd bytes ≡ some cs) × Sends cs (take_in bytes)
unfolding write_pieces spi_write
write_pieces-Sends zero fd bytes h =
    let short : ltb data_size (length bytes) ≡ false = ground arith in
    (message fd bytes ∷ [], rw short refl, record { sends = λ rest l. refl })
write_pieces-Sends (suc fuel) fd bytes h = elim (Bool-cases (ltb data_size (length bytes))) [
  | inr k ↦ (message fd bytes ∷ [], rw k refl, record { sends = λ rest l. refl })
  | inl k ↦
      let long : suc data_size ≤ length bytes = ground arith in
      let (cs, run, s) =
        write_pieces-Sends fuel fd (drop data_size bytes)
          (omega (arith, length-drop data_size bytes)) in
      (
        message fd (take data_size bytes) ∷ cs,
        rw (k, run) refl,
        record {
          sends = λ rest l.
              s.sends rest (take_in (take data_size bytes) l)
              ∙ ap (receive rest none) (
                  take_in-append (take data_size bytes) (drop data_size bytes) l
                  ∙ ap (λ z. take_in z l) (take-drop data_size bytes));
        },
      )
]

pub lcd_write_command-Sends :
    (opened fd : ℤ) (cmd : ℕ)
    → ltb_ℤ opened (pos 0) ≡ false
    → Sends (lcd_write_command opened fd cmd) (λ l. take_in (cmd ∷ []) (set_level 0 l))
unfolding lcd_write_command spi_write
lcd_write_command-Sends opened fd cmd h =
    Sends-append (set_value-Sends opened 0 h refl) (record { sends = λ rest l. refl })

pub lcd_write_data-Sends :
    (opened fd : ℤ) (bytes : List ℕ)
    → ltb_ℤ opened (pos 0) ≡ false
    → (cs : List Call) × (lcd_write_data (length bytes) opened fd bytes ≡ some cs)
      × Sends cs (λ l. take_in bytes (set_level 1 l))
unfolding lcd_write_data
lcd_write_data-Sends opened fd bytes h =
    let (cs, run, s) = write_pieces-Sends (length bytes) fd bytes (omega arith) in
    (
      (gpio_set_value opened pin_dc 1).1 ++ cs,
      rw run refl,
      Sends-append (set_value-Sends opened 1 h refl) s,
    )
