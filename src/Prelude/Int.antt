-- ===== src/Prelude/Int.antt =====
-- Signed integers over the native numbers, under the library's names (its ℤ stands on the unary ℕ).
use embedded_basecamp.Prelude.{
  ◌≡◌, arith, ℕ, zero, suc, ◌+◌, ◌-◌, ◌^◌, ◌*◌, ◌/◌, ◌%◌, ◌≤◌, Bool, ltb, ◌==◌, Option, none, some,
  if◌then◌else◌,
}

-- `negsuc n` is -(n + 1).
pub data ℤ : Type 0 where
  pos : ℕ → ℤ
  negsuc : ℕ → ℤ

abbrev pub pos_part : ℤ → ℕ
pos_part (pos n) = n
pos_part (negsuc n) = 0

abbrev pub neg_part : ℤ → ℕ
neg_part (pos n) = 0
neg_part (negsuc n) = suc n

infix 50 ◌≤ℤ◌
abbrev pub ◌≤ℤ◌ : ℤ → ℤ → Type 0
a ≤ℤ b = pos_part a + neg_part b ≤ pos_part b + neg_part a

abbrev pub ltb_ℤ : ℤ → ℤ → Bool
ltb_ℤ a b = ltb (pos_part a + neg_part b) (pos_part b + neg_part a)

abbrev pub eqb_ℤ : ℤ → ℤ → Bool
eqb_ℤ a b = pos_part a + neg_part b == pos_part b + neg_part a

-- a - 1
abbrev pub pred_ℤ : ℤ → ℤ
pred_ℤ (pos zero) = negsuc 0
pred_ℤ (pos (suc n)) = pos n
pred_ℤ (negsuc n) = negsuc (suc n)

-- `x - 1` on an `int`: at INT_MIN the behaviour is undefined.
abbrev pub int_min : ℤ
int_min = negsuc (2 ^ 31 - 1)

unfoldable pub decrement : ℤ → Option ℤ
decrement a = if eqb_ℤ a int_min then none else some (pred_ℤ a)

pub decrement_pos : (n : ℕ) → decrement (pos (suc n)) ≡ some (pos n)
unfolding decrement
decrement_pos n = ground arith

-- a + 1
abbrev pub succ_ℤ : ℤ → ℤ
succ_ℤ (pos n) = pos (suc n)
succ_ℤ (negsuc zero) = pos 0
succ_ℤ (negsuc (suc n)) = negsuc n

abbrev pub int_max : ℤ
int_max = pos (2 ^ 31 - 1)

-- `x + 1` on an `int`.
unfoldable pub increment : ℤ → Option ℤ
increment a = if eqb_ℤ a int_max then none else some (succ_ℤ a)

-- The division and the remainder of `int`, which round towards 0, by a positive divisor.
abbrev pub div_ℤ : ℤ → ℕ → ℤ
div_ℤ (pos n) d = pos (n / d)
div_ℤ (negsuc n) d = if suc n / d == 0 then pos 0 else negsuc (suc n / d - 1)

abbrev pub rem_ℤ : ℤ → ℕ → ℤ
rem_ℤ (pos n) d = pos (n % d)
rem_ℤ (negsuc n) d = if suc n % d == 0 then pos 0 else negsuc (suc n % d - 1)

abbrev pub times_ℤ : ℤ → ℕ → ℤ
times_ℤ (pos n) d = pos (n * d)
times_ℤ (negsuc n) d = if d == 0 then pos 0 else negsuc (suc n * d - 1)

abbrev pub fits_int : ℤ → Bool
fits_int (pos n) = ltb n (2 ^ 31)
fits_int (negsuc n) = ltb n (2 ^ 31)
