-- ===== src/CharDevices/Examples.antt =====
-- A kernel with the major number 240 free, whose numbers have 20 bits for the minor number, and some
-- processes at the devices of exercise11.
use embedded_basecamp.Prelude.{
  ℕ, false, arith, ◌+◌, ◌*◌, ◌/◌, ◌≡◌, refl, true, List, [], ◌∷◌, some, drop,
}
use embedded_basecamp.Prelude.Int.{ℤ, pos, pos_part, ltb_ℤ}
use embedded_basecamp.CharDevices.{Numbers, Replies}
use embedded_basecamp.CharDevices.Fixed as Fixed
use embedded_basecamp.CharDevices.Fixed.{hello_str}
use embedded_basecamp.CharDevices.Dynamic as Dynamic
use embedded_basecamp.CharDevices.Ranged as Ranged
use embedded_basecamp.CharDevices.Devices.{numbers}
use embedded_basecamp.CharDevices.Undo.{nothing, Undone}
use embedded_basecamp.CharDevices.Life.{UndoneBy, dev_init-exit, dev_init-devices}

abbrev replies : Replies
replies = record {
  mkdev = λ major minor. pos_part major * 1048576 + minor;
  major_of = λ dev. pos (dev / 1048576);
  register_chrdev_region = pos 0;
  alloc_chrdev_region = pos 0;
  alloc_dev = λ first. 251658240 + first;
  cdev_add = pos 0;
  class_create = true;
  device_create = λ dev. true;
}

dev_init-devices_example :
    (ret : ℤ) × (k : Numbers) × (Ranged.dev_init (pos 1) (pos 3) replies (nothing (pos 0))
      ≡ some (ret, k))
    × (ltb_ℤ ret (pos 0) ≡ false
        → (k.region ≡ some (replies.mkdev k.major 1, 3))
          × (k.devices ≡ drop 1 (numbers replies k.major 1 3)))
dev_init-devices_example =
    dev_init-devices 1 3 replies (pos 0) (omega arith) (λ h. refl) (refl, λ dev. refl)

dev_init-exit_example :
    Undone (Fixed.dev_exit replies) (Fixed.dev_init replies (nothing (pos 0)))
    × Undone (Dynamic.dev_exit replies) (Dynamic.dev_init replies (nothing (pos 0)))
    × UndoneBy
        (Ranged.dev_exit (pos 1) (pos 3) replies)
        (Ranged.dev_init (pos 1) (pos 3) replies (nothing (pos 0)))
dev_init-exit_example =
    dev_init-exit (pos 1) (pos 3) replies (pos 0) refl (refl, (refl, tt)) (λ h. refl) (λ h. refl)

-- The first read is too short, the copy of the second one fails.
abbrev reads : List (ℕ × ℕ)
reads = (0, 13) ∷ (4, 20) ∷ (0, 20) ∷ (0, 20) ∷ []
