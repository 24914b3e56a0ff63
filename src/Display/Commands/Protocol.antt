-- ===== src/Display/Commands/Protocol.antt =====
-- What the table makes the driver send.
use embedded_basecamp.Prelude.{
  ℕ, zero, suc, ◌≡◌, refl, Bool, true, false, Option, none, some, List, [], ◌∷◌, ◌++◌, arith,
  length, if◌then◌else◌, ◌==◌, append_assoc, append-nil, ap, ◌∙◌, ◌&&◌, Bool-cases, inl, inr, take,
  drop,
}
use embedded_basecamp.Display.{
  Wire, gpio_set_value, spi_sync, mdelay, Display, Frame, lcd_pin_reset, gpio_module_init_out,
  init_spi_wrapper, emit, lcd_pin_dc, gpio_module_set_value, spi_wrapper_write, lcd_write_command,
  lcd_write_data,
}
use embedded_basecamp.Prelude.Int.{ℤ, pos, negsuc}
use embedded_basecamp.Prelude.Memory.{is_some}
use embedded_basecamp.Display.Commands.{
  commands_transactions_count, commands, read_bytes, pause, send_command, send_commands,
  init_display_internal, init_display, lcd_reset,
}

pub record Transaction : Type 0 where
  pub cmd : ℕ
  pub delay : ℕ
  pub args : List ℕ

-- The table's layout.
abbrev pub encoded : List Transaction → List ℕ
encoded [] = []
encoded (t ∷ ts) = t.cmd ∷ length t.args ∷ t.delay ∷ (t.args ++ encoded ts)

abbrev pub data_wires : List ℕ → List Wire
data_wires [] = []
data_wires (b ∷ bs) = gpio_set_value lcd_pin_dc 1 ∷ spi_sync (b ∷ bs) ∷ []

abbrev pub delay_wires : ℕ → List Wire
delay_wires delay = if delay == 0 then [] else mdelay delay ∷ []

-- The command with the D/C pin low, its arguments with the pin high, and the pause.
abbrev pub wires_of : List Transaction → List Wire
wires_of [] = []
wires_of (t ∷ ts) =
    gpio_set_value lcd_pin_dc 0
    ∷ spi_sync (t.cmd ∷ [])
    ∷ (data_wires t.args ++ (delay_wires t.delay ++ wires_of ts))

pub read_bytes-append : (bs p : List ℕ) → read_bytes (length bs) (bs ++ p) ≡ some (bs, p)
unfolding read_bytes
read_bytes-append [] p = refl
read_bytes-append (b ∷ bs) p = rw (read_bytes-append bs p)

abbrev pub with_wires : Display → List Wire → Display
with_wires d ws = record d { wires = d.wires ++ ws }

with_wires-append :
    (d : Display) (vs ws : List Wire) → with_wires (with_wires d vs) ws ≡ with_wires d (vs ++ ws)
with_wires-append d vs ws = ap (λ xs. record d { wires = xs }) (append_assoc d.wires vs ws)

pub spi_wrapper_write-on :
    (bytes : List ℕ) (d : Display)
    → d.device ≡ true
    → spi_wrapper_write bytes d ≡ emit (spi_sync bytes) d
unfolding spi_wrapper_write
spi_wrapper_write-on bytes d on = chosen d.device _ _ on
  where
    chosen : (b : Bool) (x y : Display) → b ≡ true → (if b then x else y) ≡ x
    chosen b x y h = rw h

pub lcd_write_command-on :
    (cmd : ℕ) (d : Display)
    → d.device ≡ true
    → lcd_write_command cmd d
      ≡ with_wires d (gpio_set_value lcd_pin_dc 0 ∷ spi_sync (cmd ∷ []) ∷ [])
unfolding lcd_write_command gpio_module_set_value
lcd_write_command-on cmd d on =
    spi_wrapper_write-on (cmd ∷ []) _ on
    ∙ with_wires-append d (gpio_set_value lcd_pin_dc 0 ∷ []) (spi_sync (cmd ∷ []) ∷ [])

pub lcd_write_data-on :
    (bs : List ℕ) (d : Display)
    → d.device ≡ true
    → lcd_write_data bs d ≡ with_wires d (gpio_set_value lcd_pin_dc 1 ∷ spi_sync bs ∷ [])
unfolding lcd_write_data gpio_module_set_value
lcd_write_data-on bs d on =
    spi_wrapper_write-on bs _ on
    ∙ with_wires-append d (gpio_set_value lcd_pin_dc 1 ∷ []) (spi_sync bs ∷ [])

pause-wires : (delay : ℕ) (d : Display) → pause delay d ≡ with_wires d (delay_wires delay)
pause-wires delay d = elim (Bool-cases (delay == 0)) [ inl h ↦ rw (h, append-nil) | inr h ↦ rw h ]

abbrev command_wires : ℕ → List Wire
command_wires cmd = gpio_set_value lcd_pin_dc 0 ∷ spi_sync (cmd ∷ []) ∷ []

-- One transaction of the table.
send_command-sent :
    (cmd delay : ℕ) (args p : List ℕ) (d : Display)
    → d.device ≡ true
    → send_command cmd (length args) delay (args ++ p) d
      ≡ some (
        p,
        with_wires d (
            (gpio_set_value lcd_pin_dc 0 ∷ spi_sync (cmd ∷ []) ∷ data_wires args)
            ++ delay_wires delay),
      )
unfolding send_command
send_command-sent cmd delay [] p d on =
    rw (pause-wires, lcd_write_command-on cmd d on, with_wires-append d)
send_command-sent cmd delay (b ∷ bs) p d on =
    let more : (length (b ∷ bs) == 0) ≡ false = ground arith in
    rw
      (
        more,
        read_bytes-append (b ∷ bs) p,
        pause-wires,
        lcd_write_command-on cmd d on,
        lcd_write_data-on (b ∷ bs) (with_wires d (command_wires cmd)) on,
        with_wires-append,
      )
      (ap (λ z. some (p, z))
        (with_wires-append d (command_wires cmd) (data_wires (b ∷ bs) ++ delay_wires delay)))

-- Bytes laid out as n transactions are sent as these, from a device that is open.
send_commands-sent :
    (ts : List Transaction) (d : Display)
    → d.device ≡ true
    → send_commands (length ts) (encoded ts) d ≡ some (with_wires d (wires_of ts))
unfolding send_commands read_bytes
send_commands-sent [] d on = rw append-nil
send_commands-sent (t ∷ ts) d on =
    let ws = (command_wires t.cmd ++ data_wires t.args) ++ delay_wires t.delay in
    rw
      (
        send_command-sent t.cmd t.delay t.args (encoded ts) d on,
        send_commands-sent ts (with_wires d ws) on,
      )
      (ap some (
        with_wires-append d ws (wires_of ts)
        ∙ ap (with_wires d) (
            append_assoc (command_wires t.cmd ++ data_wires t.args) (delay_wires t.delay)
              (wires_of ts)
            ∙ append_assoc (command_wires t.cmd) (data_wires t.args)
                (delay_wires t.delay ++ wires_of ts))))

-- The reading of n transactions.
parsed : ℕ → List ℕ → List Transaction
parsed zero p = []
parsed (suc n) (cmd ∷ num_args ∷ delay ∷ p) =
    record { cmd = cmd; delay = delay; args = take num_args p } ∷ parsed n (drop num_args p)
parsed (suc n) p = []

-- The table is exactly 59 transactions, and init_display_internal sends them: each command with the
-- D/C pin low, then its arguments with the pin high, then its pause. It reads nothing past the
-- table and changes nothing else.
pub init_display_internal-sent :
    (d : Display)
    → d.device ≡ true
    → (ts : List Transaction) × (encoded ts ≡ commands)
      × (length ts ≡ commands_transactions_count)
      × (init_display_internal d ≡ some (with_wires d (wires_of ts)))
unfolding init_display_internal parsed
init_display_internal-sent d on =
    let ts : List Transaction = parsed commands_transactions_count commands in
    (ts, refl, refl, send_commands-sent ts d on)

-- init_display never runs past the table. It returns 0 exactly if the bus, the device and the buffer
-- are there, and then keeps the device and the buffer; else it returns -1.
pub init_display_cases :
    (master created : Bool) (block : Option Frame) (bus chip : ℤ) (d : Display)
    → (code : ℤ) × (d' : Display) × (init_display master created block bus chip d ≡ some (code, d'))
      × (if master && (created && is_some block)
          then (code ≡ pos 0) × ((d'.device ≡ true) × (d'.frame_buffer ≡ block))
          else (code ≡ negsuc 0))
unfolding init_display init_spi_wrapper
init_display_cases true true (some f) bus chip d =
    let (ts, eq, len, run) = init_display_internal-sent (started f) refl in
    (pos 0, with_wires (started f) (wires_of ts), rw run, (refl, (refl, refl)))
  where
    started : Frame → Display
    started f =
        let d1 = gpio_module_init_out lcd_pin_dc (gpio_module_init_out lcd_pin_reset d) in
        record (lcd_reset d1) {
          bus_num = bus;
          chip_select = chip;
          device = true;
          frame_buffer = some f;
        }
init_display_cases true true none bus chip d = (negsuc 0, _, refl, refl)
init_display_cases true false block bus chip d = (negsuc 0, _, refl, refl)
init_display_cases false created block bus chip d = (negsuc 0, _, refl, refl)
