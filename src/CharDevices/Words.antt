-- ===== src/CharDevices/Words.antt =====
-- The loops of part02/dyndev.c, as loops over 32-bit words.
use embedded_basecamp.Prelude.{
  ℕ, zero, suc, ◌+◌, ◌^◌, ◌%◌, ◌≤◌, if◌then◌else◌, ◌≡◌, refl, ap, ◌∙◌, sym, true, some, arith,
  if_true, Bool-cases, inl, inr,
}
use embedded_basecamp.Prelude.Int.{ℤ, pos, negsuc, succ_ℤ, fits_int, ltb_ℤ}
use embedded_basecamp.Prelude.Partial.{◌>>=◌}
use embedded_basecamp.CharDevices.{
  Numbers, Replies, create_device, destroy_device, create_devices, destroy_devices, request_region,
  add_region, remove_region, add_devices, remove_devices,
}
use embedded_basecamp.CharDevices.Ranged.{
  word, sum_ℤ, range_rounds, create_range, destroy_range, dev_init, dev_exit,
}
use embedded_basecamp.CharDevices.Devices.{numbers}

-- The kernel, with MKDEV on a minor number that wraps around.
abbrev pub wrapping : Replies → Replies
wrapping a = record a { mkdev = λ major minor. a.mkdev major (minor % 2 ^ 32) }

-- No sum of the loops overflows: those of `low` with the n numbers from i on.
abbrev pub SumsFit : (low : ℤ) → ℕ → (i : ℤ) → Type 0
SumsFit low zero i = Unit
SumsFit low (suc n) i = (fits_int (sum_ℤ low i) ≡ true) × SumsFit low n (succ_ℤ i)

pub word_succ : (i : ℤ) → word (succ_ℤ i) ≡ (word i + 1) % 2 ^ 32
word_succ (pos n) = omega arith
word_succ (negsuc zero) = omega arith
word_succ (negsuc (suc n)) = omega arith

pub word_sum : (x y : ℤ) → word (sum_ℤ x y) ≡ (word x + word y) % 2 ^ 32
word_sum (pos m) (pos n) = ground arith
word_sum (pos m) (negsuc n) = ground arith
word_sum (negsuc m) (pos n) = ground arith
word_sum (negsuc m) (negsuc n) = ground arith

pub word_small : (z : ℤ) → word z % 2 ^ 32 ≡ word z
word_small (pos n) = omega arith
word_small (negsuc n) = omega arith

-- The minor number of a round: `i` is j, up to the wrap-around.
same_minor :
    (low i : ℤ) (j : ℕ) → word i ≡ j % 2 ^ 32 → word (sum_ℤ low i) ≡ (word low + j) % 2 ^ 32
same_minor low i j e = omega (arith, word_sum low i)

pub create_range-create_devices :
    (a : Replies) (low : ℤ) (n : ℕ) (i : ℤ) (j : ℕ) (k : Numbers)
    → SumsFit low n i
    → word i ≡ j % 2 ^ 32
    → create_range a low n i k ≡ some (create_devices (wrapping a) (word low) n j k)
unfolding create_range create_devices create_device
create_range-create_devices a low zero i j k fit e = refl
create_range-create_devices a low (suc n) i j k fit e =
    let dev = (wrapping a).mkdev k.major (word low + j) in
    let next : word (succ_ℤ i) ≡ (j + 1) % 2 ^ 32 = omega (arith, word_succ i) in
    let rest = create_range a low n (succ_ℤ i) in
    if_true _ _ _ fit.0
    ∙ ap (λ w. rest (create_device a (a.mkdev k.major w) k)) (same_minor low i j e)
    ∙ create_range-create_devices a low n (succ_ℤ i) (j + 1) (create_device (wrapping a) dev k)
        fit.1 next

pub destroy_range-destroy_devices :
    (a : Replies) (low : ℤ) (n : ℕ) (i : ℤ) (j : ℕ) (k : Numbers)
    → SumsFit low n i
    → word i ≡ j % 2 ^ 32
    → destroy_range a low n i k ≡ some (destroy_devices (wrapping a) (word low) n j k)
unfolding destroy_range destroy_devices
destroy_range-destroy_devices a low zero i j k fit e = refl
destroy_range-destroy_devices a low (suc n) i j k fit e =
    let dev = (wrapping a).mkdev k.major (word low + j) in
    let next : word (succ_ℤ i) ≡ (j + 1) % 2 ^ 32 = omega (arith, word_succ i) in
    let rest = destroy_range a low n (succ_ℤ i) in
    if_true _ _ _ fit.0
    ∙ ap (λ w. rest (destroy_device (a.mkdev k.major w) k)) (same_minor low i j e)
    ∙ destroy_range-destroy_devices a low n (succ_ℤ i) (j + 1) (destroy_device dev k) fit.1 next

add_region-wrapping :
    (a : Replies) (low : ℤ) (count : ℕ) (k : Numbers)
    → add_region (wrapping a) (word low) count k ≡ add_region a (word low) count k
unfolding add_region request_region
add_region-wrapping a low count k = rw (word_small low) refl

remove_region-wrapping :
    (a : Replies) (low : ℤ) (count : ℕ) (k : Numbers)
    → remove_region (wrapping a) (word low) count k ≡ remove_region a (word low) count k
unfolding remove_region
remove_region-wrapping a low count k = rw (word_small low) refl

-- If no sum overflows, the start is that of a module of words.
pub dev_init-words :
    (low high : ℤ) (a : Replies) (k : Numbers)
    → SumsFit low (range_rounds low high) low
    → dev_init low high a k
      ≡ some (
          add_devices
            (wrapping a)
            (word low)
            (range_rounds low high)
            (word low)
            (add_region (wrapping a) (word low) (word high) k))
unfolding dev_init add_devices
dev_init-words low high a k fit =
    rw (add_region-wrapping a low (word high) k) (behind (add_region a (word low) (word high) k))
  where
    behind :
        (x : ℤ × Numbers)
        → (let (ret, k1) = x in
            if ltb_ℤ ret (pos 0) then some (ret, k1) else (do
              k2 ←
                  create_range a low
                    (range_rounds low high)
                    low
                    (record k1 { class = a.class_create })
              some (ret, k2)))
          ≡ some (add_devices (wrapping a) (word low) (range_rounds low high) (word low) x)
    behind (ret, k1) = elim (Bool-cases (ltb_ℤ ret (pos 0))) [
      | inl h ↦ rw h refl
      | inr h ↦
          rw
            (
              h,
              create_range-create_devices a low (range_rounds low high) low (word low)
                  (record k1 { class = a.class_create }) fit (sym (word_small low)),
            )
            refl
    ]

pub dev_exit-words :
    (low high : ℤ) (a : Replies) (k : Numbers)
    → SumsFit low (range_rounds low high) low
    → dev_exit low high a k
      ≡ some (
          remove_region
            (wrapping a)
            (word low)
            (word high)
            (remove_devices (wrapping a) (word low) (range_rounds low high) (word low) k))
unfolding dev_exit remove_devices
dev_exit-words low high a k fit =
    rw
      (
        destroy_range-destroy_devices a low (range_rounds low high) low (word low) k fit
            (sym (word_small low)),
        remove_region-wrapping a low,
      )
      refl

-- Of numbers that are not negative.
pub SumsFit-pos : (low n i : ℕ) → low + i + n ≤ 2 ^ 31 → SumsFit (pos low) n (pos i)
SumsFit-pos low zero i h = tt
SumsFit-pos low (suc n) i h = (ground arith, SumsFit-pos low n (suc i) (omega arith))

pub numbers-wrapping :
    (a : Replies) (major : ℤ) (first n : ℕ)
    → first + n ≤ 2 ^ 32
    → numbers (wrapping a) major first n ≡ numbers a major first n
numbers-wrapping a major first zero h = refl
numbers-wrapping a major first (suc n) h =
    let small : first % 2 ^ 32 ≡ first = omega arith in
    rw (small, numbers-wrapping a major (first + 1) n (omega arith)) refl
