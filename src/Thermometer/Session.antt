-- ===== src/Thermometer/Session.antt =====
-- The two files of the clock driver from the probe of a device to its removal and on.
use embedded_basecamp.Prelude.{
  ℕ, ◌≡◌, refl, Bool, true, false, List, [], ◌∷◌, map, ◌==◌, if◌then◌else◌,
}
use embedded_basecamp.Prelude.Int.{ℤ}
use embedded_basecamp.Thermometer.{
  reg_sec, reg_min, reg_hour, reg_temp_h, Bus, Data, to_char, ds_read_data, ds_time_show,
  fahrenheit, Shown, celsius_shown, fahrenheit_shown, no_unit, ds_temp_show, ds3231_probe,
  ds3231_remove,
}

-- A read of one of the two files, with the bus at that moment.
pub data Request : Type 0 where
  time_file : Bus → Request
  temp_file : Bus → Request

pub data Answer : Type 0 where
  time_shown : ℕ × ℕ × ℕ → Answer
  temp_shown : Shown → Answer

-- What the files answer to a sequence of reads, and the data then. `unit` is the first character of
-- param1.
abbrev pub show : (unit : ℕ) → Request → Data → Answer × Data
show unit (time_file bus) d = let (t, d') = ds_time_show bus d in (time_shown t, d')
show unit (temp_file bus) d = let (t, d') = ds_temp_show bus unit d in (temp_shown t, d')

abbrev pub show_all : (unit : ℕ) → List Request → Data → List Answer × Data
show_all unit [] d = ([], d)
show_all unit (r ∷ rs) d =
    let (answer, d') = show unit r d in
    let (answers, d'') = show_all unit rs d' in (answer ∷ answers, d'')

-- The time and the temperature that a bus delivers.
pub record Reading : Type 0 where
  pub hour : ℕ
  pub min : ℕ
  pub sec : ℕ
  pub temp : ℤ

abbrev pub delivered : Bus → Reading
delivered bus = record {
  hour = to_char (bus reg_hour);
  min = to_char (bus reg_min);
  sec = to_char (bus reg_sec);
  temp = bus reg_temp_h;
}

-- What is to be answered of a reading.
abbrev pub answer : (unit : ℕ) → Request → Reading → Answer
answer unit (time_file bus) g = time_shown (g.hour, g.min, g.sec)
answer unit (temp_file bus) g = temp_shown (
    if unit == 67
    then celsius_shown g.temp
    else (if unit == 70 then fahrenheit_shown (fahrenheit g.temp) else no_unit))

abbrev pub bus_of : Request → Bus
bus_of (time_file bus) = bus
bus_of (temp_file bus) = bus

-- The bus of the last request, or `first`.
abbrev pub last_bus : Bus → List Request → Bus
last_bus first [] = first
last_bus first (r ∷ rs) = last_bus (bus_of r) rs

abbrev held : Bool → Reading → Data
held client g = record {
  drv_client = client;
  sec = g.sec;
  min = g.min;
  hour = g.hour;
  temp = g.temp;
}

show_connected :
    (unit : ℕ) (r : Request) (g : Reading)
    → show unit r (held true g)
      ≡ (answer unit r (delivered (bus_of r)), held true (delivered (bus_of r)))
unfolding ds_time_show ds_temp_show ds_read_data
show_connected unit (time_file bus) g = refl
show_connected unit (temp_file bus) g = refl

show_removed :
    (unit : ℕ) (r : Request) (g : Reading)
    → show unit r (held false g) ≡ (answer unit r g, held false g)
unfolding ds_time_show ds_temp_show ds_read_data
show_removed unit (time_file bus) g = refl
show_removed unit (temp_file bus) g = refl

show_all_connected :
    (unit : ℕ) (rs : List Request) (first : Bus)
    → show_all unit rs (held true (delivered first)) ≡ (
      map (λ r. answer unit r (delivered (bus_of r))) rs,
      held true (delivered (last_bus first rs)),
    )
show_all_connected unit [] first = refl
show_all_connected unit (r ∷ rs) first =
    rw (show_connected unit r (delivered first), show_all_connected unit rs (bus_of r)) refl

show_all_removed :
    (unit : ℕ) (rs : List Request) (g : Reading)
    → show_all unit rs (held false g) ≡ (map (λ r. answer unit r g) rs, held false g)
show_all_removed unit [] g = refl
show_all_removed unit (r ∷ rs) g = rw (show_removed unit r g, show_all_removed unit rs g) refl

-- From the probe of a device on, each read of a file answers what the bus delivers then. After the
-- removal of the device, whose error the files do not look at, each read answers what the last read
-- before it has answered from, or the probe if there was none.
pub show_all-remove :
    (unit : ℕ) (first : Bus) (before after : List Request) (d : Data)
    → let (answers, d1) = show_all unit before (ds3231_probe first d).1 in
      let (stale, d2) = show_all unit after (ds3231_remove d1).1 in
      (answers ≡ map (λ r. answer unit r (delivered (bus_of r))) before)
      × (stale ≡ map (λ r. answer unit r (delivered (last_bus first before))) after)
unfolding ds3231_probe ds3231_remove ds_read_data
show_all-remove unit first before after d =
    rw
      (
        show_all_connected unit before first,
        show_all_removed unit after (delivered (last_bus first before)),
      )
      (refl, refl)
