-- ===== src/SpidevPanel/Examples.antt =====
-- The theorems on the panel of task4, at data of three bytes and at a short program.
use embedded_basecamp.Prelude.{refl, true, some, List, [], ◌∷◌}
use embedded_basecamp.Prelude.Int.{pos}
use embedded_basecamp.Display.{fresh}
use embedded_basecamp.SpidevPanel.Twin.{
  Drawing, start, window, update, pixel, screen, drive_all, draw_all, Both,
}
use embedded_basecamp.SpidevPanel.Same.{SameScreen, drive_all-draw_all}

-- The start of task4's program, and the same calls of the kernel's driver.
abbrev program : List Drawing
program = start ∷ window 0 0 239 239 ∷ screen 31 ∷ update ∷ pixel 240 0 7 ∷ []

drive_all-draw_all_example :
    Both SameScreen
      (drive_all program (record fresh { device = true; frame_buffer = some (λ k. 0) }))
      (draw_all (λ cs f. pos 5) program (record { fd = pos 3; frame_buffer = λ k. 0; calls = [] }))
drive_all-draw_all_example =
    drive_all-draw_all (λ cs f. pos 5) (λ cs f. refl) program (pos 3) (λ k. 0)
