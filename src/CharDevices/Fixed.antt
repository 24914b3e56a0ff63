-- ===== src/CharDevices/Fixed.antt =====
-- exercise11/part01/fixdev.c: a region of three numbers without devices, which is open once at most;
-- and the read of exercise11/part01/dev.h.
use embedded_basecamp.Prelude.{ℕ, List, [], ◌∷◌, if◌then◌else◌, length, ltb, ◌==◌}
use embedded_basecamp.Prelude.Int.{ℤ, pos, negsuc, eqb_ℤ, succ_ℤ, pred_ℤ}
use embedded_basecamp.CharDevices.{Numbers, Replies, add_region, remove_region}

unfoldable pub dev_init : Replies → Numbers → ℤ × Numbers
dev_init a k = add_region a 0 3 k

unfoldable pub dev_exit : Replies → Numbers → Numbers
dev_exit a k = remove_region a 0 3 k

abbrev pub ebusy : ℤ
ebusy = negsuc 15

abbrev pub einval : ℤ
einval = negsuc 21

-- On the counter device_open.
unfoldable pub dev_open : ℤ → ℤ × ℤ
dev_open device_open =
    if eqb_ℤ device_open (pos 0) then (pos 0, succ_ℤ device_open) else (ebusy, device_open)

unfoldable pub dev_release : ℤ → ℤ × ℤ
dev_release device_open = (pos 0, pred_ℤ device_open)

-- "Hello, world!\n"
abbrev pub hello_str : List ℕ
hello_str = 72 ∷ 101 ∷ 108 ∷ 108 ∷ 111 ∷ 44 ∷ 32 ∷ 119 ∷ 111 ∷ 114 ∷ 108 ∷ 100 ∷ 33 ∷ 10 ∷ []

-- What a read makes: the result, the bytes that are copied, and the position of the file. After a
-- failed copy the reader takes none.
pub record Read : Type 0 where
  pub result : ℤ
  pub copied : List ℕ
  pub ppos : ℕ

-- `uncopied` is what copy_to_user leaves of the text.
unfoldable pub dev_read : (uncopied count ppos : ℕ) → Read
dev_read uncopied count ppos =
    let len = length hello_str in
    let refused : Read = record { result = einval; copied = []; ppos = ppos } in
    let at_end : Read = record { result = pos 0; copied = []; ppos = ppos } in
    let whole : Read = record { result = pos len; copied = hello_str; ppos = len } in
    if ltb count len
    then refused
    else (if ppos == 0 then (if uncopied == 0 then whole else refused) else at_end)
