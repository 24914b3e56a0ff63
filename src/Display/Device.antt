-- ===== src/Display/Device.antt =====
-- The character device of the display and the module's entry points: gc9a01_chardev.c and
-- module_main.c of final_task/display_driver.
pub mod Writes
pub mod Boot
pub mod Panel
use embedded_basecamp.Prelude.{
  ℕ, zero, suc, ◌+◌, ◌-◌, ◌*◌, ◌/◌, ◌%◌, Bool, true, false, Option, none, some, List, [], ◌∷◌, ◌++◌,
  ltb, ◌==◌, if◌then◌else◌,
}
use embedded_basecamp.Prelude.Int.{ℤ, pos, negsuc, ltb_ℤ, eqb_ℤ}
use embedded_basecamp.Prelude.Partial.{◌>>=◌}
use embedded_basecamp.Display.{Frame, Display, lcd_width, lcd_height}
use embedded_basecamp.Display.Frame.{frame_size}
use embedded_basecamp.Display.Screen.{
  lcd_update_screen, lcd_set_address_window, lcd_fill_rectangle, lcd_fill_screen,
}
use embedded_basecamp.Display.Commands.{init_display, lcd_deinit}
use embedded_basecamp.Display.Text.{FontDef, lcd_put_string}

-- -EIO and -EFAULT
abbrev pub eio : ℤ
eio = negsuc 4

abbrev pub efault : ℤ
efault = negsuc 13

-- Byte k of the buffer, the low byte of a word first.
abbrev pub byte_of : Frame → ℕ → ℕ
byte_of f k = if k % 2 == 0 then f (k / 2) % 256 else f (k / 2) / 256 % 256

-- The first n bytes are those of `source`.
abbrev pub overlay : (source : ℕ → ℕ) (n : ℕ) → Frame → ℕ → ℕ
overlay source n f k = if ltb k n then source k % 256 else byte_of f k

-- copy_from_user into the buffer: all but `left` of the n bytes are copied.
unfoldable pub copied : (source : ℕ → ℕ) (n : ℕ) → Frame → Frame
copied source n f i = overlay source n f (2 * i) + 256 * overlay source n f (2 * i + 1)

abbrev pub get_framebuffer_size : ℕ
get_framebuffer_size = lcd_width * lcd_height * 2

-- `left` is what copy_from_user returns.
unfoldable pub display_chardev_write :
    (left : ℕ) (buffer : ℕ → ℕ) (len : ℕ) → Display → Option (ℤ × Display)
display_chardev_write left buffer len d =
    if ltb get_framebuffer_size len then some (eio, d) else (do
      f ← d.frame_buffer
      let d1 = record d { frame_buffer = some (copied buffer (len - left) f) }
      if left == 0 then (do d2 ← lcd_update_screen d1; some (pos len, d2)) else some (efault, d1))

unfoldable pub display_chardev_read : Display → ℤ × Display
display_chardev_read d = (eio, d)

-- What the kernel is asked to register.
pub data Call : Type 0 where
  alloc_chrdev_region : Call
  cdev_add : Call
  class_create : Call
  device_create : Call
  device_destroy : Call
  class_destroy : Call
  cdev_del : Call
  unregister_chrdev_region : Call

-- `allocated` and `added` are what alloc_chrdev_region and cdev_add return. The first result is what
-- the function returns; a call that failed registers nothing.
unfoldable pub init_display_chardevice : (allocated added : ℤ) → ℤ × List Call
init_display_chardevice allocated added =
    if ltb_ℤ allocated (pos 0)
    then (pos 0, [])
    else if ltb_ℤ added (pos 0)
    then (pos 0, alloc_chrdev_region ∷ unregister_chrdev_region ∷ unregister_chrdev_region ∷ [])
    else (
      pos 0,
      alloc_chrdev_region ∷ cdev_add ∷ class_create ∷ device_create ∷ unregister_chrdev_region ∷ [],
    )

unfoldable pub deinit_display_chardevice : List Call
deinit_display_chardevice =
    device_destroy ∷ class_destroy ∷ cdev_del ∷ unregister_chrdev_region ∷ []

-- "Test KERNEL mode"
abbrev pub banner : List ℕ
banner = 84 ∷ 101 ∷ 115 ∷ 116 ∷ 32 ∷ 75 ∷ 69 ∷ 82 ∷ 78 ∷ 69 ∷ 76 ∷ 32 ∷ 109 ∷ 111 ∷ 100 ∷ 101 ∷ []

-- `font` is Font_11x18 of fonts.c; the other parameters are as in the functions that are called.
unfoldable pub display_module_init :
    FontDef
    → (master created : Bool) → (block : Option Frame) → (bus chip : ℤ) → (allocated added : ℤ)
    → Display
    → Option (ℤ × List Call × Display)
display_module_init font master created block bus chip allocated added d = do
  (code, d1) ← init_display master created block bus chip d
  if eqb_ℤ code (pos 0)
      then (do
        let d2 = lcd_set_address_window 0 0 (lcd_width - 1) (lcd_height - 1) d1
        d3 ← lcd_fill_screen 0x001f d2
        d4 ← lcd_fill_rectangle 20 20 50 50 0x07e0 d3
        d5 ← lcd_fill_rectangle 40 40 80 80 0xf800 d4
        d6 ← lcd_put_string banner 60 60 font 0xf800 0 d5
        d7 ← lcd_update_screen d6
        some (pos 0, (init_display_chardevice allocated added).1, d7))
      else some (negsuc 0, [], d1)

unfoldable pub display_module_exit : Display → List Call × Display
display_module_exit d = (deinit_display_chardevice, lcd_deinit d)
