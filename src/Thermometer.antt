-- ===== src/Thermometer.antt =====
-- The driver of the DS3231 clock, exercise12/ds3231_driver.c: its reads over I2C, its two files in
-- /sys, and its life.
pub mod Reading
pub mod Session
mod Examples
use embedded_basecamp.Prelude.{
  ℕ, ◌+◌, ◌-◌, ◌*◌, ◌/◌, ◌%◌, ◌^◌, Bool, true, false, List, [], ◌∷◌, ltb, ◌==◌, if◌then◌else◌,
}
use embedded_basecamp.Prelude.Int.{ℤ, pos, negsuc, pos_part, neg_part, div_ℤ}

-- The registers.
pub data Register : Type 0 where
  reg_sec : Register
  reg_min : Register
  reg_hour : Register
  reg_temp_h : Register

-- What i2c_smbus_read_byte_data answers: a byte, or a negative error.
abbrev pub Bus : Type 0
Bus = Register → ℤ

-- ds3231_data: `drv_client` says whether the pointer is not NULL.
pub record Data : Type 0 where
  pub drv_client : Bool
  pub sec : ℕ
  pub min : ℕ
  pub hour : ℕ
  pub temp : ℤ

abbrev pub no_data : Data
no_data = record { drv_client = false; sec = 0; min = 0; hour = 0; temp = pos 0 }

-- The low 8 bits, which a `char` keeps.
abbrev pub to_char : ℤ → ℕ
to_char (pos n) = n % 256
to_char (negsuc n) = 255 - n % 256

-- -ENODEV
abbrev pub enodev : ℤ
enodev = negsuc 18

unfoldable pub ds_read_data : Bus → Data → ℤ × Data
ds_read_data bus d =
    if d.drv_client
    then (
      pos 0,
      record d {
        sec = to_char (bus reg_sec);
        min = to_char (bus reg_min);
        hour = to_char (bus reg_hour);
        temp = bus reg_temp_h;
      },
    )
    else (enodev, d)

-- The numbers that ds_time_show prints, as hours, minutes and seconds.
unfoldable pub ds_time_show : Bus → Data → (ℕ × ℕ × ℕ) × Data
ds_time_show bus d = let d' = (ds_read_data bus d).1 in ((d'.hour, d'.min, d'.sec), d')

-- (temp * 18 + 320) / 10 on an `int`.
abbrev pub scaled : ℤ → ℤ
scaled (pos n) = pos (n * 18 + 320)
scaled (negsuc n) =
    if ltb 320 ((n + 1) * 18) then negsuc ((n + 1) * 18 - 321) else pos (320 - (n + 1) * 18)

abbrev pub fahrenheit : ℤ → ℤ
fahrenheit t = div_ℤ (scaled t) 10

-- What ds_temp_show prints: a number with the unit, or "--".
pub data Shown : Type 0 where
  celsius_shown : ℤ → Shown
  fahrenheit_shown : ℤ → Shown
  no_unit : Shown

-- `unit` is the first character of param1.
unfoldable pub ds_temp_show : Bus → (unit : ℕ) → Data → Shown × Data
ds_temp_show bus unit d =
    let d' = (ds_read_data bus d).1 in
    (
      if unit == 67
          then celsius_shown d'.temp
          else (if unit == 70 then fahrenheit_shown (fahrenheit d'.temp) else no_unit),
      d',
    )

-- The client is set and read once; the properties of the device tree are param1 and a log line.
unfoldable pub ds3231_probe : Bus → Data → ℤ × Data
ds3231_probe bus d = (pos 0, (ds_read_data bus (record d { drv_client = true })).1)

unfoldable pub ds3231_remove : Data → ℤ × Data
ds3231_remove d = (pos 0, record d { drv_client = false })

-- What the module has registered.
pub record Registered : Type 0 where
  pub driver : Bool
  pub class : Bool
  pub time_file : Bool
  pub temp_file : Bool

abbrev pub unregistered : Registered
unregistered = record { driver = false; class = false; time_file = false; temp_file = false }

-- The arguments are what the four calls return; -1 stands for any error.
unfoldable pub ds3231_init : (driver class time_file temp_file : Bool) → Registered → ℤ × Registered
ds3231_init driver class time_file temp_file r =
    let r1 = record r { driver = true } in
    let r2 = record r1 { class = true } in
    let r3 = record r2 { time_file = true } in
    let r4 = record r3 { temp_file = true } in
    if driver
    then (if class
        then (if time_file
            then (if temp_file then (pos 0, r4) else (negsuc 0, r3))
            else (negsuc 0, r2))
        else (negsuc 0, r1))
    else (negsuc 0, r)

-- After a failed class_create the pointer holds an error; the module is then not loaded, so the
-- function is not called.
unfoldable pub ds3231_exit : Registered → Registered
ds3231_exit r =
    let r1 =
      if r.class then record r { time_file = false; temp_file = false; class = false } else r in
    record r1 { driver = false }
