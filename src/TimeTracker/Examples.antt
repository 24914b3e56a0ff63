-- ===== src/TimeTracker/Examples.antt =====
-- The theorems on the time tracking module, at concrete values.
use embedded_basecamp.Prelude.{
  ℕ, ◌+◌, ◌/◌, ◌%◌, ◌≡◌, refl, ◌⊎◌, true, false, none, some, List, [], ◌∷◌, ◌++◌, arith, replicate,
  ltb, if◌then◌else◌,
}
use embedded_basecamp.Prelude.Int.{pos}
use embedded_basecamp.TimeTracker.{
  passed_seconds, Tracker, Kernel, seconds_last_used, refresh_last_used_time, started,
  proc_buffer_last_accessed_read, proc_buffer_absolute_time_read,
}
use embedded_basecamp.TimeTracker.Life.{
  loaded, crashed, Entry, mode_class, mode_file, time_directory, absolute_entry, last_entry, mark,
  Life, before_load, Replies, make_root, make_absolute, make_last, init_procfs_handler,
  sysfs_handler_init, sysfs_handler_cleanup, init_random_timer, time_track_module_init,
  time_track_module_exit, Step, load, timer_expires, unload, Reach, here, next,
}
use embedded_basecamp.TimeTracker.Removed.{Reach-gone}
use embedded_basecamp.TimeTracker.Reads.{proc_buffer_last_accessed_read-cycle}
use embedded_basecamp.TimeTracker.Midnight.{proc_buffer_absolute_time_read-overrun}

-- A digit, or two.
abbrev digits : ℕ → List ℕ
digits n = if ltb n 10 then (48 + n) ∷ [] else (48 + n / 10) ∷ (48 + n % 10) ∷ []

abbrev kernel : Kernel
kernel = record {
  hz = 100;
  time64_to_tm = λ s. record { tm_hour = s / 3600; tm_min = s / 60 % 60; tm_sec = s % 60 };
  seconds_text = digits;
  last_use_text = λ tm. digits tm.tm_sec;
  absolute_text = λ tm. digits tm.tm_hour ++ 58 ∷ digits tm.tm_min;
}

abbrev tracker : Tracker
tracker = started 1000 (replicate 64 0)

proc_buffer_last_accessed_read-cycle_example :
    (t1 : Tracker) × (t2 : Tracker) × (proc_buffer_last_accessed_read kernel 2000 100 0 tracker
      ≡ some (2, 49 ∷ 48 ∷ [], t1))
    × (proc_buffer_last_accessed_read kernel 2001 100 0 t1 ≡ some (0, [], t2))
    × (t2.ready_read ≡ true)
    × (t2.timestamp_measure_begin ≡ 2000)
    × (t2.current_displaying_mode ≡ passed_seconds)
unfolding started refresh_last_used_time seconds_last_used
proc_buffer_last_accessed_read-cycle_example =
    proc_buffer_last_accessed_read-cycle kernel 2000 2001 100 tracker (49 ∷ 48 ∷ []) refl refl refl
      (omega arith) (omega arith) (omega arith)

-- At 23:59 and at 0:00.
proc_buffer_absolute_time_read-overrun_example :
    (t1 : Tracker) × (proc_buffer_absolute_time_read kernel 86399 2000 4096 0 tracker
      ≡ some (5, 50 ∷ 51 ∷ 58 ∷ 53 ∷ 57 ∷ [], t1))
    × (proc_buffer_absolute_time_read kernel 0 2100 4096 0 t1 ≡ none)
unfolding started refresh_last_used_time
proc_buffer_absolute_time_read-overrun_example =
    proc_buffer_absolute_time_read-overrun kernel 86399 0 2000 2100 4096 tracker refl refl refl
      (omega arith) (omega arith) (omega arith) (omega arith)

-- A module whose callback runs while it is removed.
abbrev answers : Replies
answers = record {
  class_create = true;
  class_create_file = pos 0;
  proc_mkdir = true;
  proc_create1 = true;
  proc_create2 = true;
}

abbrev ticking : Life
ticking = record {
  place = loaded;
  registered = mark last_entry true (
      mark absolute_entry true (
        mark time_directory true
          (mark mode_file true (mark mode_class true before_load.registered))));
  proc_dir_time_module_root = true;
  absolute_file = true;
  last_file = true;
  pending = true;
  running = false;
}

abbrev expired : Life
expired = record ticking { pending = false; running = true }

gone-Reach : Reach (time_track_module_exit expired)
unfolding time_track_module_init init_procfs_handler make_root make_absolute make_last
    sysfs_handler_init init_random_timer
gone-Reach =
    let up = next here (load before_load ticking answers (pos 0) refl refl) in
    next (next up (timer_expires ticking refl refl refl)) (unload expired refl)

Reach-gone_example :
    let s = time_track_module_exit expired in
    ((e : Entry) → s.registered e ≡ false)
    × (s.pending ≡ false)
    × (((s.running ≡ true) × Step s (record s { place = crashed }))
        ⊎ ((s.running ≡ false) × ((t : Life) → ¬ Step s t)))
unfolding time_track_module_exit sysfs_handler_cleanup
Reach-gone_example = Reach-gone (time_track_module_exit expired) gone-Reach refl
