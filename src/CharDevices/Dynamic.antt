-- ===== src/CharDevices/Dynamic.antt =====
-- exercise11/part01/dyndev.c: three devices in a region of three numbers.
use embedded_basecamp.Prelude.Int.{ℤ}
use embedded_basecamp.CharDevices.{
  Numbers, Replies, add_region, remove_region, add_devices, remove_devices,
}

unfoldable pub dev_init : Replies → Numbers → ℤ × Numbers
dev_init a k = add_devices a 0 3 0 (add_region a 0 3 k)

unfoldable pub dev_exit : Replies → Numbers → Numbers
dev_exit a k = remove_region a 0 3 (remove_devices a 0 3 0 k)
