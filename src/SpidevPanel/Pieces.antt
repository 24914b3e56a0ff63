-- ===== src/SpidevPanel/Pieces.antt =====
-- The data of the panel in pieces: that they are the data, and that each is short.
use embedded_basecamp.Prelude.{
  ℕ, zero, suc, ◌≤◌, ◌≡◌, refl, ap, false, none, some, List, [], ◌∷◌, ◌++◌, arith, length, take,
  drop, ltb, Bool-cases, inl, inr, append-nil,
}
use embedded_basecamp.Prelude.Int.{ℤ, pos, ltb_ℤ}
use embedded_basecamp.Bytes.{length-drop}
use embedded_basecamp.SpidevPanel.{
  Call, open_file, write_file, read_file, close_file, setting, message, usleep, sleep,
  gpio_set_value, spi_write, data_size, write_pieces, pin_dc, lcd_write_data,
  gpio_get_export_direction_fd, gpio_init_out, value, one_text,
}

-- The bytes that calls send to the panel, in order.
abbrev pub sent : List Call → List ℕ
sent [] = []
sent (open_file p ∷ cs) = sent cs
sent (write_file fd t ∷ cs) = sent cs
sent (read_file fd ∷ cs) = sent cs
sent (close_file fd ∷ cs) = sent cs
sent (setting fd ∷ cs) = sent cs
sent (message fd bytes ∷ cs) = bytes ++ sent cs
sent (usleep n ∷ cs) = sent cs
sent (sleep n ∷ cs) = sent cs

-- No message is longer than data_size.
abbrev pub AllShort : List Call → Type 0
AllShort [] = Unit
AllShort (open_file p ∷ cs) = AllShort cs
AllShort (write_file fd t ∷ cs) = AllShort cs
AllShort (read_file fd ∷ cs) = AllShort cs
AllShort (close_file fd ∷ cs) = AllShort cs
AllShort (setting fd ∷ cs) = AllShort cs
AllShort (message fd bytes ∷ cs) = (length bytes ≤ data_size) × AllShort cs
AllShort (usleep n ∷ cs) = AllShort cs
AllShort (sleep n ∷ cs) = AllShort cs

pub take-drop : (n : ℕ) (bytes : List ℕ) → take n bytes ++ drop n bytes ≡ bytes
take-drop zero bytes = refl
take-drop (suc n) [] = refl
take-drop (suc n) (b ∷ bytes) = ap (λ bs. b ∷ bs) (take-drop n bytes)

length-take_le : (n : ℕ) (bytes : List ℕ) → length (take n bytes) ≤ n
length-take_le zero bytes = omega arith
length-take_le (suc n) [] = omega arith
length-take_le (suc n) (b ∷ bytes) = omega (arith, length-take_le n bytes)

write_pieces-sent :
    (fuel : ℕ) (fd : ℤ) (bytes : List ℕ)
    → length bytes ≤ fuel
    → (calls : List Call) × (write_pieces fuel fd bytes ≡ some calls)
      × (sent calls ≡ bytes)
      × AllShort calls
unfolding write_pieces spi_write
write_pieces-sent zero fd bytes h =
    let short : ltb data_size (length bytes) ≡ false = ground arith in
    (message fd bytes ∷ [], rw short refl, append-nil bytes, (omega arith, tt))
write_pieces-sent (suc fuel) fd bytes h = elim (Bool-cases (ltb data_size (length bytes))) [
  | inr k ↦ (message fd bytes ∷ [], rw k refl, append-nil bytes, (ground arith, tt))
  | inl k ↦
      let long : suc data_size ≤ length bytes = ground arith in
      let (calls, run, whole, short) =
        write_pieces-sent fuel fd (drop data_size bytes)
          (omega (arith, length-drop data_size bytes)) in
      (
        message fd (take data_size bytes) ∷ calls,
        rw (k, run) refl,
        rw whole (take-drop data_size bytes),
        (length-take_le data_size bytes, short),
      )
]

-- If the file of the pin opens, and with at least as many rounds as bytes, lcd_write_data ends; it
-- sends the data as a whole and in order, in messages of at most 1000 bytes.
pub lcd_write_data-sent :
    (fuel : ℕ) (opened fd : ℤ) (bytes : List ℕ)
    → ltb_ℤ opened (pos 0) ≡ false
    → length bytes ≤ fuel
    → (calls : List Call) × (lcd_write_data fuel opened fd bytes ≡ some calls)
      × (sent calls ≡ bytes)
      × AllShort calls
unfolding lcd_write_data gpio_set_value
lcd_write_data-sent fuel opened fd bytes opens h =
    let (calls, run, whole, short) = write_pieces-sent fuel fd bytes h in
    (
      open_file (value pin_dc) ∷ write_file opened one_text ∷ close_file opened ∷ calls,
      rw (run, opens) refl,
      whole,
      short,
    )

-- When both files open, gpio_init_out uses a value that gpio_get_export_direction_fd does not return.
pub gpio_init_out-fault :
    (opened_export opened_direction : ℤ) (gpio : ℕ)
    → ltb_ℤ opened_export (pos 0) ≡ false
    → ltb_ℤ opened_direction (pos 0) ≡ false
    → gpio_init_out opened_export opened_direction gpio ≡ none
unfolding gpio_init_out gpio_get_export_direction_fd
gpio_init_out-fault a b gpio h k = rw (h, k) refl
