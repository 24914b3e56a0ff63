-- ===== src/Thermometer/Examples.antt =====
-- The theorems on the clock driver, at concrete values.
use embedded_basecamp.Prelude.{◌≡◌, [], ◌∷◌, map}
use embedded_basecamp.Prelude.Int.{pos}
use embedded_basecamp.Thermometer.{Bus, no_data, ds3231_probe, ds3231_remove}
use embedded_basecamp.Thermometer.Session.{
  time_file, temp_file, show_all, delivered, answer, bus_of, last_bus, show_all-remove,
}

abbrev bus : Bus
bus = λ r. pos 25

-- The temperature rises to 26, and the device is removed.
abbrev warmer : Bus
warmer = λ r. pos 26

show_all-remove_example :
    let (answers, d1) =
      show_all 70 (temp_file bus ∷ time_file warmer ∷ []) (ds3231_probe bus no_data).1 in
    let (stale, d2) = show_all 70 (temp_file bus ∷ []) (ds3231_remove d1).1 in
    (answers
      ≡ map (λ r. answer 70 r (delivered (bus_of r))) (temp_file bus ∷ time_file warmer ∷ []))
    × (stale
        ≡ map
            (λ r. answer 70 r (delivered (last_bus bus (temp_file bus ∷ time_file warmer ∷ []))))
            (temp_file bus ∷ []))
show_all-remove_example =
    show_all-remove 70 bus (temp_file bus ∷ time_file warmer ∷ []) (temp_file bus ∷ []) no_data
