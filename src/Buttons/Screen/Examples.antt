-- ===== src/Buttons/Screen/Examples.antt =====
-- The theorems on what task4 draws: a counter that goes from 10 to 9, and addresses.
use embedded_basecamp.Prelude.{
  ℕ, ◌+◌, ◌*◌, ◌/◌, ◌%◌, ◌<◌, ◌≡◌, refl, none, some, List, [], ◌∷◌, arith, replicate, ltb,
  if◌then◌else◌,
}
use embedded_basecamp.Prelude.Int.{pos, pos_part}
use embedded_basecamp.Display.Text.Line.{line_ink}
use embedded_basecamp.Buttons.{App, initial_app, draw_counter_value}
use embedded_basecamp.Buttons.Screen.{
  Program, Setting, color_black, color_red, font_11x18, font_16x26, draw_round,
}
use embedded_basecamp.Buttons.Screen.Shown.{draw_round-Shows}

abbrev digits : ℕ → List ℕ
digits n = if ltb n 10 then (48 + n) ∷ [] else (48 + n / 10) ∷ (48 + n % 10) ∷ []

-- Two fonts of blank characters, files that open as 5, and numbers of one or two digits.
abbrev setting : Setting
setting = record {
  rows_11x18 = replicate 1080 0;
  rows_16x26 = replicate 1560 0;
  opens = λ cs f. pos 5;
  decimal = λ n. digits (pos_part n);
}

abbrev at_ten : Program
at_ten = record {
  panel = record { buttons = []; app = record initial_app { counter_value = pos 10 } };
  screen = record { fd = pos 3; frame_buffer = λ k. 0; calls = [] };
  local_ip = none;
}

abbrev nine : App
nine = record initial_app { counter_value = pos 9; drawn = pos 10 ∷ [] }

draw_round-Shows_example :
    (s' : Program) × (draw_round setting (48 ∷ 58 ∷ 49 ∷ []) (some (49 ∷ 46 ∷ 50 ∷ [])) at_ten
      ≡ some s')
    × (s'.panel ≡ draw_counter_value at_ten.panel)
    × (s'.local_ip ≡ some (49 ∷ 46 ∷ 50 ∷ []))
    × ((px py : ℕ)
        → px < 240
        → s'.screen.frame_buffer (px + 240 * py)
          ≡ line_ink (font_11x18 setting) color_red color_black (49 ∷ 46 ∷ 50 ∷ []) 60 180 px py (
              line_ink
                (font_11x18 setting)
                color_red
                color_black
                (48 ∷ 58 ∷ 49 ∷ [])
                60
                40
                px
                py
                (line_ink (font_16x26 setting) color_red color_black (digits 10) 112 107 px py 0)))
draw_round-Shows_example =
    draw_round-Shows setting (λ cs f. refl) at_ten (48 ∷ 58 ∷ 49 ∷ []) (49 ∷ 46 ∷ 50 ∷ []) refl refl
      (omega arith, (omega arith, tt)) (omega arith, (omega arith, (omega arith, tt)))
      (omega arith, (omega arith, (omega arith, tt))) (omega arith) (omega arith) (omega arith)
