-- ===== src/Display/Device/Panel.antt =====
-- What the panel receives of a write to the character device.
use mathlib.Core.Path.{fun_ext}
use embedded_basecamp.Prelude.{
  ℕ, zero, suc, ◌+◌, ◌-◌, ◌*◌, ◌/◌, ◌%◌, ◌≤◌, ◌≡◌, refl, ap, ◌∙◌, true, false, some, List, [], ◌∷◌,
  ◌++◌, ltb, ◌==◌, if◌then◌else◌, arith,
}
use embedded_basecamp.Prelude.Int.{pos}
use embedded_basecamp.Messenger.Procfs.{slice}
use embedded_basecamp.Display.{
  Frame, Display, Wire, lcd_pin_dc, lcd_write_data, gpio_module_set_value, spi_wrapper_write,
}
use embedded_basecamp.Display.Frame.{frame_size}
use embedded_basecamp.Display.Screen.{bytes_from}
use embedded_basecamp.Display.Screen.Rectangle.{shown}
use embedded_basecamp.Display.Device.{byte_of, get_framebuffer_size, display_chardev_write}
use embedded_basecamp.Display.Device.Writes.{display_chardev_write-copied}
use embedded_basecamp.SpidevPanel.Received.{Line, tagged, hear_all, hear_all-append}

-- The bytes of the words are the bytes of the buffer, in their order.
bytes_from-slice : (f : Frame) (n k : ℕ) → bytes_from f n k ≡ slice (byte_of f) (2 * n) (2 * k)
unfolding bytes_from slice
bytes_from-slice f zero k = refl
bytes_from-slice f (suc n) k =
    let two : 2 * suc n ≡ suc (suc (2 * n)) = omega arith in
    let low : byte_of f (2 * k) ≡ f k % 256 =
      let even : (2 * k % 2 == 0) ≡ true = ground arith in
      let half : 2 * k / 2 ≡ k = omega arith in rw (even, half) refl in
    let high : byte_of f (2 * k + 1) ≡ f k / 256 % 256 =
      let odd : ((2 * k + 1) % 2 == 0) ≡ false = ground arith in
      let half : (2 * k + 1) / 2 ≡ k = omega arith in rw (odd, half) refl in
    let next : 2 * k + 1 + 1 ≡ 2 * (k + 1) = omega arith in
    rw (two, low, high, next, bytes_from-slice f n (k + 1)) refl

-- Bytes that come with the D/C pin high.
abbrev pub with_data : List ℕ → Line → Line
with_data bytes l = record l { level = 1; received = l.received ++ tagged 1 bytes }

lcd_write_data-heard :
    (bytes : List ℕ) (d : Display) (l : Line)
    → d.device ≡ true
    → hear_all (lcd_write_data bytes d).wires l ≡ with_data bytes (hear_all d.wires l)
unfolding lcd_write_data gpio_module_set_value spi_wrapper_write
lcd_write_data-heard bytes d l on = rw on (
    hear_all-append (d.wires ++ Wire.gpio_set_value lcd_pin_dc 1 ∷ []) (Wire.spi_sync bytes ∷ []) l
    ∙ ap (hear_all (Wire.spi_sync bytes ∷ []))
        (hear_all-append d.wires (Wire.gpio_set_value lcd_pin_dc 1 ∷ []) l))

-- A write of at most the buffer's size that is copied whole, to a display that has its device and its
-- buffer: the length is returned, and the panel receives, with the D/C pin high, exactly one byte for
-- each byte of the buffer: the caller's bytes in their order, and then the old ones.
pub display_chardev_write-received :
    (buffer : ℕ → ℕ) (len : ℕ) (d : Display) (f : Frame)
    → d.device ≡ true
    → d.frame_buffer ≡ some f
    → len ≤ get_framebuffer_size
    → (d' : Display) × (display_chardev_write 0 buffer len d ≡ some (pos len, d'))
      × ((l : Line)
          → hear_all d'.wires l
            ≡ with_data
                (slice
                  (λ k. if ltb k len then buffer k % 256 else byte_of f k)
                  get_framebuffer_size
                  0)
                (hear_all d.wires l))
display_chardev_write-received buffer len d f on have fits =
    let (f', run, bytes) = display_chardev_write-copied 0 buffer len d f have fits in
    let new : byte_of f' ≡ (λ k. if ltb k len then buffer k % 256 else byte_of f k) =
      let all : len - 0 ≡ len = omega arith in
      fun_ext bytes ∙ ap (λ n k. if ltb k n then buffer k % 256 else byte_of f k) all in
    (
      shown f' d,
      run,
      λ l.
          lcd_write_data-heard (bytes_from f' frame_size 0) (record d { frame_buffer = some f' }) l
            on
          ∙ ap (λ bs. with_data bs (hear_all d.wires l))
              (bytes_from-slice f' frame_size 0 ∙ ap (λ g. slice g get_framebuffer_size 0) new),
    )
