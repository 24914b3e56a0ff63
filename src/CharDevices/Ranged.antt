-- ===== src/CharDevices/Ranged.antt =====
-- exercise11/part02/dyndev.c: the devices of a range of minor numbers. The parameters and the counter
-- of the loops are ints, whose overflow is a fault; MKDEV and the kernel read them as 32-bit words.
use embedded_basecamp.Prelude.{
  ℕ, zero, suc, ◌+◌, ◌-◌, ◌^◌, ◌%◌, Option, none, some, if◌then◌else◌, ltb, false,
}
use embedded_basecamp.Prelude.Int.{ℤ, pos, negsuc, pos_part, neg_part, ltb_ℤ, succ_ℤ, fits_int}
use embedded_basecamp.Prelude.Partial.{◌>>=◌}
use embedded_basecamp.CharDevices.{
  Numbers, Replies, add_region, remove_region, create_device, destroy_device,
}

abbrev pub word : ℤ → ℕ
word (pos n) = n % 2 ^ 32
word (negsuc n) = 2 ^ 32 - 1 - n % 2 ^ 32

abbrev pub sum_ℤ : ℤ → ℤ → ℤ
sum_ℤ x y =
    let up = pos_part x + pos_part y in
    let down = neg_part x + neg_part y in
    if ltb up down then negsuc (down - up - 1) else pos (up - down)

-- The rounds of a loop from `low` on, up to `high`.
abbrev pub range_rounds : (low high : ℤ) → ℕ
range_rounds low high = pos_part high + neg_part low - (pos_part low + neg_part high)

-- The two loops, over the rounds that are left.
unfoldable pub create_range : Replies → (low : ℤ) → ℕ → (i : ℤ) → Numbers → Option Numbers
create_range a low zero i k = some k
create_range a low (suc n) i k =
    let rest =
      create_range a low n (succ_ℤ i) (create_device a (a.mkdev k.major (word (sum_ℤ low i))) k) in
    if fits_int (sum_ℤ low i) then rest else none

unfoldable pub destroy_range : Replies → (low : ℤ) → ℕ → (i : ℤ) → Numbers → Option Numbers
destroy_range a low zero i k = some k
destroy_range a low (suc n) i k =
    let rest =
      destroy_range a low n (succ_ℤ i) (destroy_device (a.mkdev k.major (word (sum_ℤ low i))) k) in
    if fits_int (sum_ℤ low i) then rest else none

unfoldable pub dev_init :
    (devices_minor_min devices_minor_max : ℤ) → Replies → Numbers → Option (ℤ × Numbers)
dev_init devices_minor_min devices_minor_max a k =
    let (ret, k1) = add_region a (word devices_minor_min) (word devices_minor_max) k in
    if ltb_ℤ ret (pos 0) then some (ret, k1) else (do
      k2 ←
          create_range a devices_minor_min (range_rounds devices_minor_min devices_minor_max)
            devices_minor_min (record k1 { class = a.class_create })
      some (ret, k2))

unfoldable pub dev_exit :
    (devices_minor_min devices_minor_max : ℤ) → Replies → Numbers → Option Numbers
dev_exit devices_minor_min devices_minor_max a k = do
  k1 ←
      destroy_range a devices_minor_min (range_rounds devices_minor_min devices_minor_max)
        devices_minor_min k
  some (
      remove_region a (word devices_minor_min) (word devices_minor_max)
        (record k1 { class = false }))
