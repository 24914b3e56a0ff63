-- ===== src/SpidevPanel.antt =====
-- What task4 does to the panel from user space: the pins by files of /sys (gpio_module.c), the
-- transfers by spidev (spi_module.c), and the functions of gc9a01.c that use them in another way than
-- the kernel driver's copy: the data in pieces, the reset, and the end.
pub mod Pieces
pub mod Screen
pub mod Received
pub mod Twin
pub mod Same
mod Examples
use embedded_basecamp.Prelude.{
  ℕ, zero, suc, ◌+◌, ◌-◌, Option, none, some, Bool, true, false, List, [], ◌∷◌, ◌++◌, ltb, ◌==◌,
  if◌then◌else◌, length, take, drop,
}
use embedded_basecamp.Prelude.Int.{ℤ, pos, negsuc, ltb_ℤ, fits_int}
use embedded_basecamp.Prelude.Partial.{◌>>=◌}

-- The files of the directory of pins, and the device of the panel.
pub data File : Type 0 where
  export : File
  unexport : File
  direction : ℕ → File
  value : ℕ → File
  spidev : File

-- The texts that are written into them, each with a 0 behind it but for the number of a pin.
pub data Text : Type 0 where
  out_text : Text
  in_text : Text
  one_text : Text
  zero_text : Text
  pin_number : ℕ → Text

-- The calls of the operating system.
pub data Call : Type 0 where
  open_file : File → Call
  write_file : ℤ → Text → Call
  read_file : ℤ → Call
  close_file : ℤ → Call
  -- an ioctl of a setting of the device
  setting : ℤ → Call
  -- SPI_IOC_MESSAGE(1)
  message : ℤ → List ℕ → Call
  usleep : ℕ → Call
  sleep : ℕ → Call

-- `opened` is what `open` answers. A result of `none` is a function that ends without a value.
unfoldable pub gpio_get_export_direction_fd :
    (opened_export opened_direction : ℤ) → (gpio : ℕ) → Option ℤ × List Call
gpio_get_export_direction_fd opened_export opened_direction gpio =
    let exported = open_file export ∷ write_file opened_export (pin_number gpio) ∷ [] in
    if ltb_ℤ opened_export (pos 0) then (some opened_export, open_file export ∷ []) else (
      if ltb_ℤ opened_direction (pos 0) then some opened_direction else none,
      exported ++ open_file (direction gpio) ∷ [],
    )

-- What gpio_init_out and gpio_init_in share: a use of the value that is not there is a fault.
abbrev pub gpio_init : Text → (opened_export opened_direction : ℤ) → ℕ → Option (ℤ × List Call)
gpio_init text opened_export opened_direction gpio =
    let r = gpio_get_export_direction_fd opened_export opened_direction gpio in
    r.0 >>= λ fd.
    if ltb_ℤ fd (pos 0)
    then some (fd, r.1)
    else some (pos 0, r.1 ++ write_file fd text ∷ close_file fd ∷ [])

unfoldable pub gpio_init_out : (opened_export opened_direction : ℤ) → ℕ → Option (ℤ × List Call)
gpio_init_out opened_export opened_direction gpio =
    gpio_init out_text opened_export opened_direction gpio

unfoldable pub gpio_init_in : (opened_export opened_direction : ℤ) → ℕ → Option (ℤ × List Call)
gpio_init_in opened_export opened_direction gpio =
    gpio_init in_text opened_export opened_direction gpio

unfoldable pub gpio_free : (opened : ℤ) → ℕ → ℤ × List Call
gpio_free opened gpio =
    if ltb_ℤ opened (pos 0)
    then (opened, open_file unexport ∷ [])
    else (pos 0, open_file unexport ∷ write_file opened (pin_number gpio) ∷ close_file opened ∷ [])

unfoldable pub gpio_set_value : (opened : ℤ) → (gpio level : ℕ) → ℤ × List Call
gpio_set_value opened gpio level =
    let text = if level == 0 then zero_text else one_text in
    if ltb_ℤ opened (pos 0)
    then (opened, open_file (value gpio) ∷ [])
    else (pos 0, open_file (value gpio) ∷ write_file opened text ∷ close_file opened ∷ [])

-- `character` is the byte that `read` delivers, 0 if it delivers none.
unfoldable pub gpio_get_value : (opened : ℤ) → (character gpio : ℕ) → ℤ × List Call
gpio_get_value opened character gpio =
    let level = if ltb character 48 then negsuc (48 - character - 1) else pos (character - 48) in
    if ltb_ℤ opened (pos 0)
    then (opened, open_file (value gpio) ∷ [])
    else (level, open_file (value gpio) ∷ read_file opened ∷ close_file opened ∷ [])

-- The answers of the six settings are only printed.
unfoldable pub init_spi_module : (opened : ℤ) → List Call
init_spi_module opened = let s = setting opened in open_file spidev ∷ s ∷ s ∷ s ∷ s ∷ s ∷ s ∷ []

unfoldable pub spi_write : (fd : ℤ) → List ℕ → List Call
spi_write fd bytes = message fd bytes ∷ []

unfoldable pub deinit_spi : (fd : ℤ) → List Call
deinit_spi fd = close_file fd ∷ []

abbrev pub data_size : ℕ
data_size = 1000

-- The loop of lcd_write_data and the write behind it, for at most `fuel` rounds.
unfoldable pub write_pieces : (fuel : ℕ) → (fd : ℤ) → List ℕ → Option (List Call)
write_pieces zero fd bytes =
    if ltb data_size (length bytes) then none else some (spi_write fd bytes)
write_pieces (suc fuel) fd bytes =
    let rest = write_pieces fuel fd (drop data_size bytes) in
    if ltb data_size (length bytes)
    then (rest >>= λ calls. some (spi_write fd (take data_size bytes) ++ calls))
    else some (spi_write fd bytes)

abbrev pub pin_reset : ℕ
pin_reset = 27

abbrev pub pin_dc : ℕ
pin_dc = 22

abbrev pub pin_cs : ℕ
pin_cs = 25

-- `opened` is what `open` answers for the file of the pin.
unfoldable pub lcd_write_command : (opened fd : ℤ) → ℕ → List Call
lcd_write_command opened fd cmd = (gpio_set_value opened pin_dc 0).1 ++ spi_write fd (cmd ∷ [])

unfoldable pub lcd_write_data : (fuel : ℕ) → (opened fd : ℤ) → List ℕ → Option (List Call)
lcd_write_data fuel opened fd bytes = do
  calls ← write_pieces fuel fd bytes
  some ((gpio_set_value opened pin_dc 1).1 ++ calls)

unfoldable pub lcd_reset : (opened_reset opened_again opened_cs : ℤ) → List Call
lcd_reset opened_reset opened_again opened_cs =
    (gpio_set_value opened_reset pin_reset 0).1
    ++ usleep 5000
      ∷ ((gpio_set_value opened_again pin_reset 1).1 ++ (gpio_set_value opened_cs pin_cs 0).1)

unfoldable pub lcd_deinit : (fd opened_reset opened_dc opened_cs : ℤ) → List Call
lcd_deinit fd opened_reset opened_dc opened_cs =
    deinit_spi fd
    ++ (gpio_free opened_reset pin_reset).1
    ++ (gpio_free opened_dc pin_dc).1
    ++ (gpio_free opened_cs pin_cs).1
