-- ===== src/TimeTracker.antt =====
-- The time tracking module of task7: the time since the last use (timer_track_module.c), the two
-- entries in /proc (procfs_handler.c), the mode in /sys (sysfs_handler.c), the random timer
-- (random_timer_handler.c) and the handlers that connect them (module_main.c).
pub mod Reads
pub mod Midnight
pub mod Values
pub mod Life
pub mod Removed
mod Examples
use embedded_basecamp.Prelude.{
  ℕ, ◌+◌, ◌-◌, ◌/◌, ◌%◌, ◌^◌, Option, none, some, Bool, true, false, List, [], ◌∷◌, ◌++◌, ltb, ◌==◌,
  if◌then◌else◌, length, take,
}
use embedded_basecamp.Prelude.Int.{ℤ, pos, negsuc, eqb_ℤ}
use embedded_basecamp.Prelude.Partial.{◌>>=◌}
use embedded_basecamp.Bytes.{read_at, laid}

-- display_time_mode_t; a variable that is used never holds `display_time_mode_enum_end`.
pub data DisplayMode : Type 0 where
  passed_seconds : DisplayMode
  full_time_display : DisplayMode

-- The fields of `struct tm` that are shown.
pub record Tm : Type 0 where
  pub tm_hour : ℕ
  pub tm_min : ℕ
  pub tm_sec : ℕ

-- A row of proc_buffer, with its proc_msg_length and proc_msg_read_pos.
pub record Row : Type 0 where
  pub bytes : List ℕ
  pub msg_length : ℕ
  pub read_pos : ℕ

-- The static variables of the module. `used_cb` and `absolute_cb` say whether the callbacks of
-- procfs_handler.c are set, to the handlers of module_main.c.
pub record Tracker : Type 0 where
  pub current_displaying_mode : DisplayMode
  pub timestamp_measure_begin : ℕ
  pub absolute_time : Row
  pub last_used : Row
  pub ready_read : Bool
  pub used_cb : Bool
  pub absolute_cb : Bool
  pub mode_cb : Bool

abbrev pub procfs_buffer_format_size : ℕ
procfs_buffer_format_size = 64

-- snprintf into a row, and the length that strlen then finds. The text has no 0.
unfoldable pub print : List ℕ → Row → Row
print text row =
    let shown = take (procfs_buffer_format_size - 1) text in
    record row { bytes = laid (shown ++ 0 ∷ []) row.bytes; msg_length = length shown }

-- What is left of the message, with the wrap-around of `size_t`.
abbrev pub unread : Row → ℕ
unread row = (row.msg_length + 2 ^ 64 - row.read_pos) % 2 ^ 64

-- The part that the two reads share: the length is cut, and copy_to_user leaves `left` of it.
unfoldable pub copy_row : (length left : ℕ) → Row → Option (ℕ × List ℕ × Row)
copy_row length left row = do
  let n = (if ltb (unread row) length then unread row else length) - left
  bytes ← read_at row.bytes row.read_pos n
  some (n, bytes, record row { read_pos = (row.read_pos + n) % 2 ^ 64 })

-- The kernel: the frequency of `jiffies`, the conversion of seconds to a date, and the texts that
-- snprintf makes of the three formats.
pub record Kernel : Type 0 where
  pub hz : ℕ
  pub time64_to_tm : ℕ → Tm
  pub seconds_text : ℕ → List ℕ
  pub last_use_text : Tm → List ℕ
  pub absolute_text : Tm → List ℕ

-- timer_handler_get_seconds_last_used_value, at the value `jiffies` of the counter: both values are
-- cut to 32 bits.
unfoldable pub seconds_last_used : (hz jiffies : ℕ) → Tracker → ℕ
seconds_last_used hz jiffies t =
    (jiffies % 2 ^ 32 + 2 ^ 32 - t.timestamp_measure_begin) % 2 ^ 32 / hz

-- Also init_timer_module.
unfoldable pub refresh_last_used_time : (jiffies : ℕ) → Tracker → Tracker
refresh_last_used_time jiffies t = record t { timestamp_measure_begin = jiffies % 2 ^ 32 }

module _ (kernel : Kernel) where
  open kernel use {hz, time64_to_tm, seconds_text, last_use_text, absolute_text}

  unfoldable pub format_procfs_passed_seconds : (jiffies : ℕ) → Tracker → Tracker
  format_procfs_passed_seconds jiffies t = record t {
    last_used = print (seconds_text (seconds_last_used hz jiffies t)) t.last_used;
  }

  unfoldable pub format_procfs_passed_fulldate : (jiffies : ℕ) → Tracker → Tracker
  format_procfs_passed_fulldate jiffies t = record t {
    last_used = print (last_use_text (time64_to_tm (seconds_last_used hz jiffies t))) t.last_used;
  }

  abbrev pub format : DisplayMode → (jiffies : ℕ) → Tracker → Tracker
  format passed_seconds jiffies t = format_procfs_passed_seconds jiffies t
  format full_time_display jiffies t = format_procfs_passed_fulldate jiffies t

  unfoldable pub procfs_entry_has_been_used_handler : (jiffies : ℕ) → Tracker → Tracker
  procfs_entry_has_been_used_handler jiffies t =
      refresh_last_used_time jiffies (format t.current_displaying_mode jiffies t)

  -- `now` is the time of day in seconds.
  unfoldable pub procfs_entry_request_absolut_time_handler : (now : ℕ) → Tracker → Tracker
  procfs_entry_request_absolut_time_handler now t = record t {
    absolute_time = print (absolute_text (time64_to_tm now)) t.absolute_time;
  }

  unfoldable pub emit_event_procfs_entry_used : (jiffies : ℕ) → Tracker → Tracker
  emit_event_procfs_entry_used jiffies t =
      if t.used_cb then procfs_entry_has_been_used_handler jiffies t else t

  unfoldable pub emit_procfs_absolute_time_request : (now : ℕ) → Tracker → Tracker
  emit_procfs_absolute_time_request now t =
      if t.absolute_cb then procfs_entry_request_absolut_time_handler now t else t

  -- The read of absolute_time behind the two calls.
  unfoldable pub read_absolute_time : (length left : ℕ) → Tracker → Option (ℕ × List ℕ × Tracker)
  read_absolute_time length left t = do
    (n, bytes, row) ← copy_row length left t.absolute_time
    let row' = if n == 0 then record row { read_pos = 0 } else row
    some (n, bytes, record t { absolute_time = row' })

  unfoldable pub proc_buffer_absolute_time_read :
      (now jiffies length left : ℕ) → Tracker → Option (ℕ × List ℕ × Tracker)
  proc_buffer_absolute_time_read now jiffies length left t =
      read_absolute_time length left
        (emit_event_procfs_entry_used jiffies (emit_procfs_absolute_time_request now t))

  -- What a read of last_accessed does first, if the last one has come to the end.
  abbrev pub rearm : (jiffies : ℕ) → Tracker → Tracker
  rearm jiffies t =
      let t1 = emit_event_procfs_entry_used jiffies t in
      if t.ready_read
      then record t1 { ready_read = false; last_used = record t1.last_used { read_pos = 0 } }
      else t

  -- And what follows.
  unfoldable pub read_last_used : (length left : ℕ) → Tracker → Option (ℕ × List ℕ × Tracker)
  read_last_used length left t = do
    (n, bytes, row) ← copy_row length left t.last_used
    some
        (n, bytes, record t { last_used = row; ready_read = if n == 0 then true else t.ready_read })

  unfoldable pub proc_buffer_last_accessed_read :
      (jiffies length left : ℕ) → Tracker → Option (ℕ × List ℕ × Tracker)
  proc_buffer_last_accessed_read jiffies length left t =
      read_last_used length left (rearm jiffies t)

unfoldable pub displaying_mode_changed_handler : DisplayMode → Tracker → Tracker
displaying_mode_changed_handler mode t = record t { current_displaying_mode = mode }

abbrev pub set_mode : Bool → DisplayMode → Tracker → Tracker
set_mode callback mode t = if callback then displaying_mode_changed_handler mode t else t

-- `kstrtos32` is the kernel's parser: what it leaves in a variable that is 0, for the text that is
-- kept.
unfoldable pub display_mode_store :
    (kstrtos32 : List ℕ → ℤ) → (buf : List ℕ) → Tracker → ℕ × Tracker
display_mode_store kstrtos32 buf t =
    let kept = take 9 buf in
    let value = kstrtos32 kept in
    (
      length kept,
      if eqb_ℤ value (pos 0)
          then set_mode t.mode_cb passed_seconds t
          else (if eqb_ℤ value (pos 1) then set_mode t.mode_cb full_time_display t else t),
    )

-- The value of random_timer_callback for the random word `rand`, in `uint` arithmetic: with a range
-- that is empty modulo 2 ^ 32 the remainder is by 0, a fault.
unfoldable pub random_value : (rand rand_min rand_max : ℕ) → Option ℕ
random_value rand rand_min rand_max =
    let range = (rand_max + 2 ^ 32 - rand_min + 1) % 2 ^ 32 in
    if range == 0 then none else some ((rand % range + rand_min) % 2 ^ 32)

-- Each expiry sets the timer again; `secs` are the seconds until then.
unfoldable pub random_timer_callback : (rand rand_min rand_max timer_period : ℕ) → Option (ℕ × ℕ)
random_timer_callback rand rand_min rand_max timer_period = do
  value ← random_value rand rand_min rand_max
  some (value, timer_period)

-- The static initialisers, and time_track_module_init at the value `jiffies` when all its calls
-- succeed.
unfoldable pub started : (jiffies : ℕ) → (zeros : List ℕ) → Tracker
started jiffies zeros = refresh_last_used_time jiffies (record {
  current_displaying_mode = passed_seconds;
  timestamp_measure_begin = 0;
  absolute_time = record { bytes = zeros; msg_length = 0; read_pos = 0 };
  last_used = record { bytes = zeros; msg_length = 0; read_pos = 0 };
  ready_read = true;
  used_cb = true;
  absolute_cb = true;
  mode_cb = true;
})
