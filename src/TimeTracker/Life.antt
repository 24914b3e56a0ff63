-- ===== src/TimeTracker/Life.antt =====
-- The life of the time tracking module: init_procfs_handler and cleanup_procfs_handler of
-- task7/procfs_handler.c, sysfs_handler_init and sysfs_handler_cleanup of task7/sysfs_handler.c, the
-- timer of task7/random_timer_handler.c, and the two entry points of task7/module_main.c.
use embedded_basecamp.Prelude.{ℕ, ◌≡◌, ◌==◌, Bool, true, false, Option, none, some, if◌then◌else◌}
use embedded_basecamp.Prelude.Partial.{◌>>=◌}
use embedded_basecamp.Prelude.Int.{ℤ, pos, negsuc, eqb_ℤ}

pub data Place : Type 0 where
  unloaded : Place
  loaded : Place
  gone : Place
  crashed : Place

-- What the module can have registered: the class and its file, the directory in /proc and its files.
pub data Entry : Type 0 where
  mode_class : Entry
  mode_file : Entry
  time_directory : Entry
  absolute_entry : Entry
  last_entry : Entry

abbrev entry_number : Entry → ℕ
entry_number mode_class = 0
entry_number mode_file = 1
entry_number time_directory = 2
entry_number absolute_entry = 3
entry_number last_entry = 4

-- The kernel's entries, which the module's pointers do not determine: whether each is registered.
abbrev pub Entries : Type 0
Entries = Entry → Bool

abbrev pub mark : Entry → Bool → Entries → Entries
mark e b es = λ d. if entry_number e == entry_number d then b else es d

-- What is registered with the kernel; whether each pointer of procfs_handler.c is not NULL; and the
-- random timer: whether it is pending, and whether its callback runs.
pub record Life : Type 0 where
  pub place : Place
  pub registered : Entries
  pub proc_dir_time_module_root : Bool
  pub absolute_file : Bool
  pub last_file : Bool
  pub pending : Bool
  pub running : Bool

-- The static variables of a module that is not loaded yet.
abbrev pub before_load : Life
before_load = record {
  place = unloaded;
  registered = λ e. false;
  proc_dir_time_module_root = false;
  absolute_file = false;
  last_file = false;
  pending = false;
  running = false;
}

-- What the kernel answers: whether a call succeeds, and the code of class_create_file.
pub record Replies : Type 0 where
  pub class_create : Bool
  pub class_create_file : ℤ
  pub proc_mkdir : Bool
  pub proc_create1 : Bool
  pub proc_create2 : Bool

-- -EFAULT
abbrev pub efault : ℤ
efault = negsuc 13

-- class_create and class_create_file, when they succeed or not.
abbrev pub create : Entry → Bool → Life → Life
create e ok s = record s { registered = mark e (if ok then true else s.registered e) s.registered }

-- remove_proc_entry, class_remove_file and class_destroy: the entry, and no other.
abbrev pub remove : Entry → Life → Life
remove e s = record s { registered = mark e false s.registered }

-- proc_mkdir and the two proc_create, each with the pointer that it answers.
unfoldable pub make_root : Bool → Life → Life
make_root true s = record s {
  registered = mark time_directory true s.registered;
  proc_dir_time_module_root = true;
}
make_root false s = record s { proc_dir_time_module_root = false }

unfoldable pub make_absolute : Bool → Life → Life
make_absolute true s = record s {
  registered = mark absolute_entry true s.registered;
  absolute_file = true;
}
make_absolute false s = record s { absolute_file = false }

unfoldable pub make_last : Bool → Life → Life
make_last true s = record s { registered = mark last_entry true s.registered; last_file = true }
make_last false s = record s { last_file = false }

unfoldable pub init_procfs_handler : Replies → Life → ℤ × Life
init_procfs_handler a s =
    let s1 = make_root a.proc_mkdir s in
    let s2 = make_absolute a.proc_create1 s1 in
    let s3 = make_last a.proc_create2 s2 in
    if a.proc_mkdir
    then (if a.proc_create1
        then (if a.proc_create2 then (pos 0, s3) else (efault, s3))
        else (efault, s2))
    else (efault, s1)

-- The three tests of cleanup_procfs_handler, each with what it guards.
unfoldable pub remove_absolute : Life → Life
remove_absolute s =
    if s.absolute_file then record (remove absolute_entry s) { absolute_file = false } else s

unfoldable pub remove_last : Life → Life
remove_last s = if s.last_file then record (remove last_entry s) { last_file = false } else s

unfoldable pub remove_root : Life → Life
remove_root s =
    if s.proc_dir_time_module_root
    then record (remove time_directory s) { proc_dir_time_module_root = false }
    else s

unfoldable pub cleanup_procfs_handler : Life → Life
cleanup_procfs_handler s = remove_root (remove_last (remove_absolute s))

-- The error pointer of a failed class_create is only reported: class_create_file reads through it.
unfoldable pub sysfs_handler_init : Replies → Life → Option (ℤ × Life)
sysfs_handler_init a s =
    if a.class_create
    then some (
      a.class_create_file,
      create mode_file (eqb_ℤ a.class_create_file (pos 0)) (create mode_class true s),
    )
    else none

unfoldable pub sysfs_handler_cleanup : Life → Life
sysfs_handler_cleanup s = remove mode_class (remove mode_file s)

unfoldable pub init_random_timer : Life → Life
init_random_timer s = record s { pending = true }

-- del_timer does not wait for a callback that runs.
unfoldable pub deinit_random_timer : Life → Life
deinit_random_timer s = record s { pending = false }

-- The results of the two calls are not looked at. init_timer_module and the callbacks are in Tracker.
unfoldable pub time_track_module_init : Replies → Life → Option (ℤ × Life)
time_track_module_init a s = do
  (code, s1) ← sysfs_handler_init a s
  some (pos 0, record (init_random_timer (init_procfs_handler a s1).1) { place = loaded })

unfoldable pub time_track_module_exit : Life → Life
time_track_module_exit s =
    record (sysfs_handler_cleanup (cleanup_procfs_handler (deinit_random_timer s))) { place = gone }

-- One step of the module or of its timer.
pub data Step : Life → Life → Type 0 where
  load :
      (s t : Life) (a : Replies) (code : ℤ)
      → s.place ≡ unloaded
      → time_track_module_init a s ≡ some (code, t)
      → Step s t
  load_fault :
      (s : Life) (a : Replies)
      → s.place ≡ unloaded
      → time_track_module_init a s ≡ none
      → Step s (record s { place = crashed })
  timer_expires :
      (s : Life)
      → s.place ≡ loaded
      → s.pending ≡ true
      → s.running ≡ false
      → Step s (record s { pending = false; running = true })
  -- random_timer_callback sets the timer again, and returns
  callback_ends :
      (s : Life)
      → s.place ≡ loaded
      → s.running ≡ true
      → Step s (record s { pending = true; running = false })
  unload : (s : Life) → s.place ≡ loaded → Step s (time_track_module_exit s)
  -- the code of the callback is gone
  callback_away :
      (s : Life) → s.place ≡ gone → s.running ≡ true → Step s (record s { place = crashed })
  expires_away :
      (s : Life) → s.place ≡ gone → s.pending ≡ true → Step s (record s { place = crashed })

pub data Reach : Life → Type 0 where
  here : Reach before_load
  next : {s t : Life} → Reach s → Step s t → Reach t
