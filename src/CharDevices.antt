-- ===== src/CharDevices.antt =====
-- The character devices of exercise11: part01/fixdev.c, part01/dyndev.c and part02/dyndev.c, with the
-- read of part01/dev.h. What they hold of the kernel's device numbers.
pub mod Fixed
pub mod Dynamic
pub mod Ranged
pub mod Files
pub mod Words
pub mod Devices
pub mod Undo
pub mod Life
mod Examples
use embedded_basecamp.Prelude.{
  ℕ, zero, suc, ◌+◌, ◌-◌, Bool, true, false, Option, none, some, List, [], ◌∷◌, ◌++◌, ◌&&◌, not,
  if◌then◌else◌, ◌==◌, ltb, keep,
}
use embedded_basecamp.Prelude.Int.{ℤ, pos, negsuc, ltb_ℤ, succ_ℤ, pred_ℤ, eqb_ℤ}

-- The global `major` of a module, and what it holds: a region (its first number and its length), the
-- cdev on such a region, the class and the devices in the class.
pub record Numbers : Type 0 where
  pub major : ℤ
  pub region : Option (ℕ × ℕ)
  pub cdev : Option (ℕ × ℕ)
  pub class : Bool
  pub devices : List ℕ

-- What the kernel has of numbers and answers: MKDEV and MAJOR, the results of the calls, the number
-- that is in `dev` behind alloc_chrdev_region from a minor number on, and for each number whether device_create succeeds.
pub record Replies : Type 0 where
  pub mkdev : ℤ → ℕ → ℕ
  pub major_of : ℕ → ℤ
  pub register_chrdev_region : ℤ
  pub alloc_chrdev_region : ℤ
  pub alloc_dev : ℕ → ℕ
  pub cdev_add : ℤ
  pub class_create : Bool
  pub device_create : ℕ → Bool

abbrev same_region : Option (ℕ × ℕ) → ℕ → ℕ → Bool
same_region none dev count = false
same_region (some (first, n)) dev count = (first == dev) && (n == count)

-- unregister_chrdev_region gives back the region that has this number and length.
unfoldable pub unregister_chrdev_region : ℕ → ℕ → Numbers → Numbers
unregister_chrdev_region dev count k = record k {
  region = if same_region k.region dev count then none else k.region;
}

-- A region of `count` numbers from the minor number `first` on: the result, and the number `dev`.
unfoldable pub request_region : Replies → (first count : ℕ) → Numbers → ℤ × (ℕ × Numbers)
request_region a first count k =
    if eqb_ℤ k.major (pos 0)
    then (
      a.alloc_chrdev_region,
      (
        a.alloc_dev first,
        record k {
          major = a.major_of (a.alloc_dev first);
          region =
              if ltb_ℤ a.alloc_chrdev_region (pos 0)
              then k.region
              else some (a.alloc_dev first, count);
        },
      ),
    )
    else (
      a.register_chrdev_region,
      (
        a.mkdev k.major first,
        record k {
          region =
              if ltb_ℤ a.register_chrdev_region (pos 0)
              then k.region
              else some (a.mkdev k.major first, count);
        },
      ),
    )

-- The first half of each dev_init, up to the test of cdev_add.
unfoldable pub add_region : Replies → (first count : ℕ) → Numbers → ℤ × Numbers
add_region a first count k =
    let (ret, (dev, k1)) = request_region a first count k in
    let k2 = unregister_chrdev_region (a.mkdev k1.major first) count k1 in
    if ltb_ℤ ret (pos 0)
    then (ret, k1)
    else (if ltb_ℤ a.cdev_add (pos 0)
        then (a.cdev_add, k2)
        else (a.cdev_add, record k1 { cdev = some (dev, count) }))

-- cdev_del and unregister_chrdev_region.
unfoldable pub remove_region : Replies → (first count : ℕ) → Numbers → Numbers
remove_region a first count k =
    unregister_chrdev_region (a.mkdev k.major first) count (record k { cdev = none })

-- device_create: it fails too if the class is the error of class_create.
unfoldable pub create_device : Replies → ℕ → Numbers → Numbers
create_device a dev k =
    if k.class && a.device_create dev then record k { devices = k.devices ++ dev ∷ [] } else k

-- The class is not the error of class_create: device_destroy would read through it.
unfoldable pub destroy_device : ℕ → Numbers → Numbers
destroy_device dev k = record k { devices = keep (λ d. not (d == dev)) k.devices }

-- The loops from `i` on over the `n` rounds that are left.
unfoldable pub create_devices : Replies → (first n i : ℕ) → Numbers → Numbers
create_devices a first zero i k = k
create_devices a first (suc n) i k =
    create_devices a first n (i + 1) (create_device a (a.mkdev k.major (first + i)) k)

unfoldable pub destroy_devices : Replies → (first n i : ℕ) → Numbers → Numbers
destroy_devices a first zero i k = k
destroy_devices a first (suc n) i k =
    destroy_devices a first n (i + 1) (destroy_device (a.mkdev k.major (first + i)) k)

-- The class and the devices of a module that has its region.
unfoldable pub add_devices : Replies → (first n i : ℕ) → ℤ × Numbers → ℤ × Numbers
add_devices a first n i (ret, k) =
    if ltb_ℤ ret (pos 0)
    then (ret, k)
    else (ret, create_devices a first n i (record k { class = a.class_create }))

unfoldable pub remove_devices : Replies → (first n i : ℕ) → Numbers → Numbers
remove_devices a first n i k = record (destroy_devices a first n i k) { class = false }
