-- ===== src/Thermometer/Reading.antt =====
-- What the clock driver shows and what it leaves registered.
use embedded_basecamp.Prelude.{
  ℕ, ◌+◌, ◌*◌, ◌/◌, ◌≤◌, ◌<◌, ◌≡◌, refl, Bool, true, false, arith, inl, inr, ◌⊎◌,
}
use embedded_basecamp.Prelude.Int.{pos, negsuc}
use embedded_basecamp.Thermometer.{
  reg_temp_h, Bus, Data, ds_read_data, ds_temp_show, fahrenheit_shown, unregistered, ds3231_init,
  ds3231_exit,
}

-- With a client, the byte t of the temperature register is shown in Fahrenheit as (18 t + 320) / 10,
-- rounded down.
pub ds_temp_show-fahrenheit :
    (bus : Bus) (d : Data) (t : ℕ)
    → d.drv_client ≡ true
    → bus reg_temp_h ≡ pos t
    → (f : ℕ) × ((ds_temp_show bus 70 d).0 ≡ fahrenheit_shown (pos f))
      × (10 * f ≤ 18 * t + 320)
      × (18 * t + 320 < 10 * f + 10)
unfolding ds_temp_show ds_read_data
ds_temp_show-fahrenheit bus d t on given =
    ((t * 18 + 320) / 10, rw (on, given) refl, omega arith, omega arith)

-- ds3231_init gives back nothing when it fails: an error leaves the driver registered unless its own
-- registration failed. When it succeeds, ds3231_exit gives all back.
pub ds3231_init-cases :
    (driver class time_file temp_file : Bool)
    → (((ds3231_init driver class time_file temp_file unregistered).0 ≡ pos 0)
        × (ds3231_exit (ds3231_init driver class time_file temp_file unregistered).1
            ≡ unregistered))
      ⊎ (((ds3231_init driver class time_file temp_file unregistered).0 ≡ negsuc 0)
          × ((ds3231_init driver class time_file temp_file unregistered).1.driver ≡ driver))
unfolding ds3231_init ds3231_exit
ds3231_init-cases false class time_file temp_file = inr (refl, refl)
ds3231_init-cases true false time_file temp_file = inr (refl, refl)
ds3231_init-cases true true false temp_file = inr (refl, refl)
ds3231_init-cases true true true false = inr (refl, refl)
ds3231_init-cases true true true true = inl (refl, refl)
