-- ===== src/Display/Examples.antt =====
-- The theorems on the display at concrete inputs: a black buffer, and a font of two characters.
use embedded_basecamp.Prelude.{
  ℕ, ◌+◌, ◌*◌, ◌<◌, ◌%◌, ◌≡◌, refl, true, some, List, [], ◌∷◌, arith, ltb, ◌&&◌, if◌then◌else◌,
  length, replicate,
}
use embedded_basecamp.Prelude.Int.{pos}
use embedded_basecamp.Display.{Frame, Display, fresh, lcd_width, lcd_height}
use embedded_basecamp.Display.Frame.{swapped}
use embedded_basecamp.Display.Screen.{lcd_fill_rectangle}
use embedded_basecamp.Display.Screen.Rectangle.{within, shown, lcd_fill_rectangle-Painted}
use embedded_basecamp.Display.Commands.{
  commands_transactions_count, commands, init_display_internal,
}
use embedded_basecamp.Display.Commands.Protocol.{
  Transaction, encoded, wires_of, with_wires, init_display_internal-sent,
}
use embedded_basecamp.Display.Text.{FontDef, lcd_put_string}
use embedded_basecamp.Display.Text.Line.{line_ink, lcd_put_string-painted}
use embedded_basecamp.Messenger.Procfs.{slice}
use embedded_basecamp.SpidevPanel.Received.{Line, hear_all}
use embedded_basecamp.Display.Device.Panel.{with_data, display_chardev_write-received}
use embedded_basecamp.Display.Device.{byte_of, get_framebuffer_size, display_chardev_write}

abbrev black : Frame
black k = 0

abbrev open_display : Display
open_display = record fresh { device = true; frame_buffer = some black }

-- The space is blank, the next character is three pixels.
abbrev font : FontDef
font = record { width = 8; height = 2; rows = 0 ∷ 0 ∷ 0x8000 ∷ 0xc000 ∷ [] }

abbrev big_font : FontDef
big_font = record { width = 11; height = 18; rows = replicate 1600 0 }

lcd_fill_rectangle-Painted_example :
    (f' : Frame) × (lcd_fill_rectangle 20 20 50 50 0x07e0 open_display
      ≡ some (shown f' open_display))
    × ((px py : ℕ)
        → px < lcd_width
        → py < lcd_height
        → f' (px + lcd_width * py)
          ≡ (if within 20 50 px && within 20 50 py then swapped 0x07e0 else 0))
lcd_fill_rectangle-Painted_example =
    lcd_fill_rectangle-Painted open_display black 20 20 50 50 0x07e0 refl (omega arith)
      (omega arith) (λ e. absurd (omega arith)) (λ e. absurd (omega arith))

init_display_internal-sent_example :
    (ts : List Transaction) × (encoded ts ≡ commands)
    × (length ts ≡ commands_transactions_count)
    × (init_display_internal open_display ≡ some (with_wires open_display (wires_of ts)))
init_display_internal-sent_example = init_display_internal-sent open_display refl

lcd_put_string-painted_example :
    (f' : Frame) × (lcd_put_string (33 ∷ 32 ∷ []) 224 230 font 0xf800 0 open_display
      ≡ some (record open_display { frame_buffer = some f' }))
    × ((px py : ℕ)
        → px < lcd_width
        → f' (px + lcd_width * py) ≡ line_ink font 0xf800 0 (33 ∷ 32 ∷ []) 224 230 px py 0)
lcd_put_string-painted_example =
    lcd_put_string-painted (33 ∷ 32 ∷ []) 224 230 font 0xf800 0 open_display black refl
      (omega arith, (omega arith, tt)) (omega arith) (omega arith)

display_chardev_write-received_example :
    (d' : Display) × (display_chardev_write 0 (λ k. k) 7 open_display ≡ some (pos 7, d'))
    × ((l : Line)
        → hear_all d'.wires l
          ≡ with_data
              (slice (λ k. if ltb k 7 then k % 256 else byte_of black k) get_framebuffer_size 0)
              (hear_all open_display.wires l))
display_chardev_write-received_example =
    display_chardev_write-received (λ k. k) 7 open_display black refl refl (omega arith)
