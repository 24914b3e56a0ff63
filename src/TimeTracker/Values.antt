-- ===== src/TimeTracker/Values.antt =====
-- The numbers of the time tracking module: the random values and the seconds since the last use.
use embedded_basecamp.Prelude.{
  ℕ, suc, ◌+◌, ◌-◌, ◌/◌, ◌%◌, ◌^◌, ◌≤◌, ◌<◌, ◌≡◌, refl, ap, none, some, false, arith, ◌==◌,
}
use embedded_basecamp.TimeTracker.{Tracker, seconds_last_used, refresh_last_used_time, random_value}

-- With limits in order that do not span all words, each random word gives a value between them.
pub random_value-bounds :
    (rand rand_min rand_max : ℕ)
    → rand_min ≤ rand_max
    → suc rand_max < 2 ^ 32 + rand_min
    → rand_max < 2 ^ 32
    → (v : ℕ) × (random_value rand rand_min rand_max ≡ some v) × (rand_min ≤ v) × (v ≤ rand_max)
unfolding random_value
random_value-bounds rand rand_min rand_max h k l =
    let range = rand_max - rand_min + 1 in
    let e : (rand_max + 2 ^ 32 - rand_min + 1) % 2 ^ 32 ≡ range = omega arith in
    let some_range : (range == 0) ≡ false = ground arith in
    let less : rand % range < range = grind arith in
    let sum : (rand % range + rand_min) % 2 ^ 32 ≡ rand % range + rand_min = omega (arith, less) in
    (rand % range + rand_min, rw (e, some_range, sum) refl, omega arith, omega (arith, less))

-- With the lower limit one above the upper one, or with limits that span all words, the callback
-- divides by 0.
pub random_value-fault :
    (rand rand_min rand_max : ℕ)
    → rand_min < 2 ^ 32
    → (rand_max + 1) % 2 ^ 32 ≡ rand_min
    → random_value rand rand_min rand_max ≡ none
unfolding random_value
random_value-fault rand rand_min rand_max h k =
    let e : (rand_max + 2 ^ 32 - rand_min + 1) % 2 ^ 32 ≡ 0 = omega arith in rw e refl

-- The seconds are those that have passed since the last refresh, as long as the ticks fit 32 bits,
-- even if the counter has wrapped in between; beyond that they begin anew.
pub seconds_last_used-refresh :
    (hz jiffies ticks : ℕ) (t : Tracker)
    → seconds_last_used hz (jiffies + ticks) (refresh_last_used_time jiffies t)
      ≡ ticks % 2 ^ 32 / hz
unfolding seconds_last_used refresh_last_used_time
seconds_last_used-refresh hz jiffies ticks t =
    let e : ((jiffies + ticks) % 2 ^ 32 + 2 ^ 32 - jiffies % 2 ^ 32) % 2 ^ 32 ≡ ticks % 2 ^ 32 =
      omega arith in
    ap (λ k. k / hz) e
