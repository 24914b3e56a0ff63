-- ===== src/Workers/Rounds.antt =====
-- The loop of thread_func ends, after total_time / delay_message rounds, rounded up.
use embedded_basecamp.Prelude.{
  ℕ, zero, suc, ◌+◌, ◌-◌, ◌/◌, ◌^◌, ◌≤◌, ◌<◌, ◌≡◌, refl, true, some, [], arith, replicate, leb,
  Bool-cases, inl, inr, ltb,
}
use embedded_basecamp.Prelude.Int.{pos, negsuc, ltb_ℤ}
use embedded_basecamp.Workers.{Task, minus_ℤ, subtract, thread_func}

abbrev pub ceiling : ℕ → ℕ → ℕ
ceiling r d = (r + d - 1) / d

ceiling_step : (r d : ℕ) → suc zero ≤ d → d ≤ r → ceiling r d ≡ suc (ceiling (r - d) d)
ceiling_step r d h k = grind arith

ceiling_last : (r d : ℕ) → suc zero ≤ r → r ≤ d → ceiling r d ≡ 1
ceiling_last r d h k = grind arith

ceiling-zero : (d : ℕ) → suc zero ≤ d → ceiling 0 d ≡ 0
ceiling-zero d h = grind arith

-- One round: the time that remains, if any does.
round_left :
    (r d : ℕ)
    → suc zero ≤ r
    → r < 2 ^ 31
    → suc zero ≤ d
    → d < 2 ^ 31
    → subtract (pos r) (pos d) ≡ some (minus_ℤ (pos r) (pos d))
unfolding subtract
round_left r d a b c e = ground arith

ended : (fuel : ℕ) (t : Task) (n : ℕ) → thread_func fuel t (negsuc n) ≡ some []
unfolding thread_func
ended zero t n = ground arith
ended (suc fuel) t n = ground arith

-- With a positive delay, enough rounds of the loop are its total time: it ends, and prints the
-- message once for each delay that the total time has begun, with no overflow.
pub thread_func-replicate :
    (fuel r d : ℕ) (t : Task)
    → t.delay_message ≡ pos d
    → suc zero ≤ d
    → d < 2 ^ 31
    → r < 2 ^ 31
    → r ≤ fuel
    → thread_func fuel t (pos r) ≡ some (replicate (ceiling r d) (t.delay_message, t.message))
unfolding thread_func
thread_func-replicate zero r d t e h k l f =
    let none_left : r ≡ 0 = omega arith in rw (none_left, ceiling-zero d h) refl
thread_func-replicate (suc fuel) r d t e h k l f = elim (Bool-cases (ltb 0 r)) [
  | inr z ↦ let none_left : r ≡ 0 = ground arith in rw (none_left, ceiling-zero d h) (ground arith)
  | inl p ↦
      let run = round_left r d (ground arith) l h k in
      let go : ltb_ℤ (pos 0) (pos r) ≡ true = ground arith in
      elim (Bool-cases (leb d r)) [
        | inl q ↦
            let left : minus_ℤ (pos r) (pos d) ≡ pos (r - d) = ground arith in
            let rest = thread_func-replicate fuel (r - d) d t e h k (omega arith) (omega arith) in
            let rounds = ceiling_step r d h (ground arith) in
            rw (go, e, run, left, rounds) (rw (rw e at rest) refl)
        | inr q ↦
            let left : minus_ℤ (pos r) (pos d) ≡ negsuc (d - r - 1) = ground arith in
            let rounds = ceiling_last r d (ground arith) (ground arith) in
            rw (go, e, run, left, rounds) (rw (ended fuel _ (d - r - 1)) refl)
      ]
]
