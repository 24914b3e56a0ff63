-- ===== src/StringProcessor.antt =====
-- The string converter of exercise10/part03: the conversions (strings_processor.c), the choice of the
-- mode in /sys (sysfs_handler.c) and the entry in /proc (rw.c). A buffer is the list of its bytes.
pub mod Convert
pub mod Device
pub mod Words
pub mod Flip
pub mod Transfer
pub mod Buffers
pub mod Life
pub mod Exchange
mod Examples
use embedded_basecamp.Prelude.{ℕ}

-- ConversionMode_t; a variable of the type never holds `EnumEnd`.
pub data ConversionMode : Type 0 where
  none_conversion : ConversionMode
  flip : ConversionMode
  uppercase : ConversionMode

abbrev pub buffer_size : ℕ
buffer_size = 1024
