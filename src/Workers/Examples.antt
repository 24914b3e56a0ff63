-- ===== src/Workers/Examples.antt =====
-- The theorems on the worker threads, at the tasks of test_module.
use embedded_basecamp.Prelude.{
  ℕ, zero, suc, ◌≤◌, ◌<◌, ◌≡◌, ◌≢◌, refl, true, false, some, ◌⊎◌, arith, replicate,
}
use embedded_basecamp.Prelude.Int.{pos, ◌≤ℤ◌, fits_int}
use embedded_basecamp.Workers.{
  Task, thread_func, running, starting, cleaned, System, put, loaded, Step, start, here, next,
}
use embedded_basecamp.Workers.Steps.{lost, Reach-not_cleaned}
use embedded_basecamp.Workers.End.{work_left, Step-less, Reach-Step}
use embedded_basecamp.Workers.Rounds.{thread_func-replicate}

abbrev tasks : ℕ → Task
tasks zero = record { message = "test task1"; delay_message = pos 70; total_time = pos 100 }
tasks (suc zero) = record { message = "test task2"; delay_message = pos 40; total_time = pos 100 }
tasks (suc (suc k)) = record {
  message = "test task5";
  delay_message = pos 10;
  total_time = pos 100;
}

delays : (k : ℕ) → k < 3 → pos 1 ≤ℤ (tasks k).delay_message
delays zero h = omega arith
delays (suc zero) h = omega arith
delays (suc (suc k)) h = omega arith

delays_fit : (k : ℕ) → k < 3 → fits_int (tasks k).delay_message ≡ true
delays_fit zero h = refl
delays_fit (suc zero) h = refl
delays_fit (suc (suc k)) h = refl

totals_fit : (k : ℕ) → k < 3 → fits_int (tasks k).total_time ≡ true
totals_fit zero h = refl
totals_fit (suc zero) h = refl
totals_fit (suc (suc k)) h = refl

-- The first thread runs.
abbrev one_running : System
one_running = record {
  main = starting 1;
  threads = put (loaded 3 tasks).threads 0 (running (pos 100));
}

first_start : Step 3 tasks (loaded 3 tasks) one_running
first_start = start (loaded 3 tasks) 0 refl (omega arith)

Reach-not_cleaned_example : starting 1 ≢ cleaned
Reach-not_cleaned_example =
    Reach-not_cleaned 3 tasks one_running 0 (pos 100) (next here first_start) (omega arith) refl

Step-less_example : suc (work_left 3 tasks one_running) ≤ work_left 3 tasks (loaded 3 tasks)
Step-less_example = Step-less 3 tasks delays here first_start

none_lost : (k : ℕ) → k < 3 → lost (one_running.threads k) ≡ false
none_lost k h = ground arith

Reach-Step_example : (starting 1 ≡ cleaned) ⊎ ((t : System) × Step 3 tasks one_running t)
Reach-Step_example =
    Reach-Step 3 tasks one_running delays delays_fit totals_fit (next here first_start) none_lost

thread_func-replicate_example :
    thread_func 100 (tasks 0) (pos 100) ≡ some (replicate 2 (pos 70, "test task1"))
thread_func-replicate_example =
    thread_func-replicate 100 100 70 (tasks 0) refl (omega arith) (omega arith) (omega arith)
      (omega arith)
