-- ===== src/Workers.antt =====
-- The worker threads of task9/module_main.c: the tasks, the loop of a thread, and the interleavings of
-- test_module with its threads as a step relation.
pub mod Steps
pub mod End
pub mod Rounds
mod Examples
use Prim.Native.String.{String}
use embedded_basecamp.Prelude.{
  ℕ, zero, suc, ◌+◌, ◌-◌, ◌<◌, Option, none, some, Bool, true, false, List, [], ◌∷◌, ◌++◌, leb, ltb,
  ◌==◌, ◌≡◌, if◌then◌else◌,
}
use embedded_basecamp.Prelude.Int.{ℤ, pos, negsuc, pos_part, neg_part, ltb_ℤ, ◌≤ℤ◌, fits_int}
use embedded_basecamp.Prelude.Partial.{◌>>=◌}

-- task_descriptor_t without its links.
pub record Task : Type 0 where
  pub message : String
  pub delay_message : ℤ
  pub total_time : ℤ

abbrev pub difference : ℕ → ℕ → ℤ
difference a b = if leb b a then pos (a - b) else negsuc (b - a - 1)

abbrev pub minus_ℤ : ℤ → ℤ → ℤ
minus_ℤ a b = difference (pos_part a + neg_part b) (pos_part b + neg_part a)

-- `a - b` on an `int`: a result out of range is a fault.
unfoldable pub subtract : ℤ → ℤ → Option ℤ
subtract a b = if fits_int (minus_ℤ a b) then some (minus_ℤ a b) else none

-- The three allocations of add_task; nothing tests the third.
unfoldable pub add_task :
    (block buffer handler : Bool) → String → ℤ → ℤ → List Task → Option (List Task)
add_task block buffer handler message delay total tasks =
    let task : Task = record { message = message; delay_message = delay; total_time = total } in
    if block
    then (if buffer then (if handler then some (tasks ++ task ∷ []) else none) else some tasks)
    else some tasks

-- The loop of thread_func, for at most `fuel` rounds: what it prints. It has not ended if the result
-- is `none`, unless an overflow ended it.
unfoldable pub thread_func : (fuel : ℕ) → Task → (remaining : ℤ) → Option (List (ℤ × String))
thread_func zero t remaining = if ltb_ℤ (pos 0) remaining then none else some []
thread_func (suc fuel) t remaining =
    let rest = subtract remaining t.delay_message >>= thread_func fuel t in
    if ltb_ℤ (pos 0) remaining
    then (rest >>= λ lines. some ((t.delay_message, t.message) ∷ lines))
    else some []

-- The tasks that test_module adds.
abbrev pub test_tasks : List Task
test_tasks =
    record { message = "test task1"; delay_message = pos 70; total_time = pos 100 }
    ∷ record { message = "test task2"; delay_message = pos 40; total_time = pos 100 }
    ∷ record { message = "test task5"; delay_message = pos 10; total_time = pos 100 }
    ∷ []

-- A thread: not yet started, not to be had (kthread_run failed), in its loop with the time remaining,
-- or past complete(), after which it reads nothing of its task.
pub data Thread : Type 0 where
  waiting_for_start : Thread
  failed : Thread
  running : (remaining : ℤ) → Thread
  completed : Thread

-- Where test_module is: at the start of thread k, at the wait for completion k, or past
-- cleanup_items, which frees the tasks and the completions.
pub data Main : Type 0 where
  starting : ℕ → Main
  waiting : ℕ → Main
  cleaned : Main

pub record System : Type 0 where
  pub main : Main
  pub threads : ℕ → Thread

abbrev pub put : (ℕ → Thread) → ℕ → Thread → ℕ → Thread
put f k t j = if j == k then t else f j

-- `tasks` has the task of each number below `count`.
module _ (count : ℕ) (tasks : ℕ → Task) where
  abbrev pub loaded : System
  loaded = record { main = starting 0; threads = λ k. waiting_for_start }

  -- One step of test_module or of one of its threads.
  pub data Step : System → System → Type 0 where
    -- kthread_run
    start :
        (s : System) (k : ℕ)
        → s.main ≡ starting k
        → k < count
        → Step s (record {
          main = starting (suc k);
          threads = put s.threads k (running (tasks k).total_time);
        })
    start_failed :
        (s : System) (k : ℕ)
        → s.main ≡ starting k
        → k < count
        → Step s (record { main = starting (suc k); threads = put s.threads k failed })
    all_started : (s : System) → s.main ≡ starting count → Step s (record s { main = waiting 0 })
    -- a round of the loop of thread k
    round :
        (s : System) (k : ℕ) (remaining next : ℤ)
        → k < count
        → s.threads k ≡ running remaining
        → ltb_ℤ (pos 0) remaining ≡ true
        → subtract remaining (tasks k).delay_message ≡ some next
        → Step s (record s { threads = put s.threads k (running next) })
    -- complete()
    complete :
        (s : System) (k : ℕ) (remaining : ℤ)
        → k < count
        → s.threads k ≡ running remaining
        → ltb_ℤ (pos 0) remaining ≡ false
        → Step s (record s { threads = put s.threads k completed })
    -- wait_for_completion
    wait :
        (s : System) (k : ℕ)
        → s.main ≡ waiting k
        → k < count
        → s.threads k ≡ completed
        → Step s (record s { main = waiting (suc k) })
    cleanup_items : (s : System) → s.main ≡ waiting count → Step s (record s { main = cleaned })

  pub data Reach : System → Type 0 where
    here : Reach loaded
    next : {s t : System} → Reach s → Step s t → Reach t
