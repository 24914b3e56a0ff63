-- ===== src/Display.antt =====
-- The display driver's state, of final_task/display_driver: gpio_module.c, spi_module.c and
-- gc9a01.c, as far as they talk to the panel.
pub mod Frame
pub mod Commands
pub mod Screen
pub mod Text
pub mod Device
mod Examples
use embedded_basecamp.Prelude.{
  ℕ, Bool, true, false, Option, none, some, List, [], ◌∷◌, ◌++◌, if◌then◌else◌, ◌<◌,
}
use embedded_basecamp.Prelude.Int.{ℤ, pos, negsuc}

-- What the kernel is asked to do, in order.
pub data Wire : Type 0 where
  gpio_request : ℕ → Wire
  gpio_direction_output : ℕ → ℕ → Wire
  gpio_direction_input : ℕ → Wire
  gpio_set_value : ℕ → ℕ → Wire
  gpio_free : ℕ → Wire
  -- one message of one transfer, by spi_sync
  spi_sync : List ℕ → Wire
  spi_unregister_device : Wire
  mdelay : ℕ → Wire
  kfree : Wire

-- The frame buffer's 16-bit words.
abbrev pub Frame : Type 0
Frame = ℕ → ℕ

pub record Display : Type 0 where
  -- whether `spi_device_master` is set
  pub device : Bool
  pub bus_num : ℤ
  pub chip_select : ℤ
  -- the block behind `frame_buffer`
  pub frame_buffer : Option Frame
  pub wires : List Wire

abbrev pub fresh : Display
fresh = record {
  device = false;
  bus_num = pos 0;
  chip_select = pos 0;
  frame_buffer = none;
  wires = [];
}

abbrev pub lcd_pin_reset : ℕ
lcd_pin_reset = 27

abbrev pub lcd_pin_dc : ℕ
lcd_pin_dc = 22

abbrev pub lcd_width : ℕ
lcd_width = 240

abbrev pub lcd_height : ℕ
lcd_height = 240

abbrev pub emit : Wire → Display → Display
emit w d = record d { wires = d.wires ++ w ∷ [] }

-- The label that is given to gpio_request is left out, and so is the code that is returned, which
-- is that of the last call and which no caller reads.
unfoldable pub gpio_module_init_out : ℕ → Display → Display
gpio_module_init_out gpio d = emit (gpio_direction_output gpio 0) (emit (gpio_request gpio) d)

unfoldable pub gpio_module_init_in : ℕ → Display → Display
gpio_module_init_in gpio d = emit (gpio_direction_input gpio) (emit (gpio_request gpio) d)

unfoldable pub gpio_module_free : ℕ → Display → Display
gpio_module_free gpio d = emit (gpio_free gpio) d

unfoldable pub gpio_module_set_value : ℕ → ℕ → Display → Display
gpio_module_set_value gpio value d = emit (gpio_set_value gpio value) d

-- -ENODEV
abbrev pub enodev : ℤ
enodev = negsuc 18

-- `master` and `created` say whether spi_busnum_to_master and spi_new_device return a pointer that
-- is not NULL. The second one is stored in `spi_device_master` either way.
unfoldable pub init_spi_wrapper : (master created : Bool) → ℤ → ℤ → Display → ℤ × Display
init_spi_wrapper master created bus chip d =
    let d1 = record d { bus_num = bus; chip_select = chip } in
    if master
    then (if created then pos 0 else enodev, record d1 { device = created })
    else (enodev, d1)

-- The code that is returned (-1 without a device, else that of spi_sync) is read by no caller.
unfoldable pub spi_wrapper_write : List ℕ → Display → Display
spi_wrapper_write bytes d = if d.device then emit (spi_sync bytes) d else d

unfoldable pub deinit_spi_wrapper : Display → Display
deinit_spi_wrapper d = if d.device then emit spi_unregister_device d else d

unfoldable pub lcd_write_command : ℕ → Display → Display
lcd_write_command cmd d = spi_wrapper_write (cmd ∷ []) (gpio_module_set_value lcd_pin_dc 0 d)

unfoldable pub lcd_write_data : List ℕ → Display → Display
lcd_write_data buff d = spi_wrapper_write buff (gpio_module_set_value lcd_pin_dc 1 d)
