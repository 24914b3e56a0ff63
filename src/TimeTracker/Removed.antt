-- ===== src/TimeTracker/Removed.antt =====
-- What a time tracking module that is removed leaves.
use embedded_basecamp.Prelude.{
  ◌≡◌, refl, ◌∙◌, Bool-cases, arith, Bool, true, false, Option, none, some, ◌⊎◌, inl, inr, sym, ap,
  subst,
}
use embedded_basecamp.Prelude.Int.{ℤ}
use embedded_basecamp.TimeTracker.Life.{
  unloaded, loaded, gone, crashed, Entry, mode_class, mode_file, time_directory, absolute_entry,
  last_entry, Entries, mark, Life, before_load, Replies, make_root, make_absolute, make_last,
  init_procfs_handler, remove_absolute, remove_last, remove_root, cleanup_procfs_handler,
  sysfs_handler_init, sysfs_handler_cleanup, init_random_timer, deinit_random_timer,
  time_track_module_init, time_track_module_exit, Place, Step, load, load_fault, timer_expires,
  callback_ends, unload, callback_away, expires_away, Reach, here, next,
}

-- The pointers are those of the entries in /proc that are registered.
record Owned (s : Life) : Type 0 where
  directory : s.registered time_directory ≡ s.proc_dir_time_module_root
  absolute : s.registered absolute_entry ≡ s.absolute_file
  last : s.registered last_entry ≡ s.last_file

-- Nothing is registered, and the timer is not pending.
record Cleared (s : Life) : Type 0 where
  entries : (e : Entry) → s.registered e ≡ false
  timer : s.pending ≡ false

-- What is known at each place.
At : Place → Life → Type 0
At unloaded s = s ≡ before_load
At loaded s = Owned s
At gone s = Cleared s
At crashed s = Unit

state_of : Option (ℤ × Life) → Life
state_of none = before_load
state_of (some (code, s)) = s

abbrev start_with : ℤ → (class root first second : Bool) → Option (ℤ × Life)
start_with code class root first second =
    time_track_module_init
      (record {
        class_create = class;
        class_create_file = code;
        proc_mkdir = root;
        proc_create1 = first;
        proc_create2 = second;
      })
      before_load

-- The start, whatever the kernel answers.
started-Owned :
    (a : Replies) (code : ℤ) (t : Life)
    → time_track_module_init a before_load ≡ some (code, t)
    → (t.place ≡ loaded) × Owned t
unfolding time_track_module_init sysfs_handler_init init_random_timer init_procfs_handler make_root
    make_absolute make_last state_of
started-Owned a code t e = answered a.class_create a.proc_mkdir a.proc_create1 a.proc_create2 e
  where
    shown : {s : Life} → s ≡ t → s.place ≡ loaded → Owned s → (t.place ≡ loaded) × Owned t
    shown e p o = subst (λ z. (z.place ≡ loaded) × Owned z) e (p, o)

    answered :
        (class root first second : Bool)
        → start_with a.class_create_file class root first second ≡ some (code, t)
        → (t.place ≡ loaded) × Owned t
    answered false root first second e = cc
    answered true false first second e =
        shown (ap state_of e) refl (record { directory = refl; absolute = refl; last = refl })
    answered true true false second e =
        shown (ap state_of e) refl (record { directory = refl; absolute = refl; last = refl })
    answered true true true false e =
        shown (ap state_of e) refl (record { directory = refl; absolute = refl; last = refl })
    answered true true true true e =
        shown (ap state_of e) refl (record { directory = refl; absolute = refl; last = refl })

cleanup_procfs_handler-cleared :
    (s : Life)
    → Owned s
    → let t = cleanup_procfs_handler s in
      (t.registered time_directory ≡ false)
      × (t.registered absolute_entry ≡ false)
      × (t.registered last_entry ≡ false)
      × (t.pending ≡ s.pending)
unfolding cleanup_procfs_handler remove_absolute remove_last remove_root
cleanup_procfs_handler-cleared s o =
    (ground (arith, o.directory), ground (arith, o.absolute), ground (arith, o.last), ground arith)

time_track_module_exit-Cleared : (s : Life) → Owned s → Cleared (time_track_module_exit s)
unfolding time_track_module_exit sysfs_handler_cleanup deinit_random_timer
time_track_module_exit-Cleared s o =
    let deleted : Owned (record s { pending = false }) = record {
      directory = o.directory;
      absolute = o.absolute;
      last = o.last;
    } in
    let (r, f, l, p) = cleanup_procfs_handler-cleared (record s { pending = false }) deleted in
    record {
      entries = each (cleanup_procfs_handler (record s { pending = false })).registered r f l;
      timer = p;
    }
  where
    each :
        (es : Entries)
        → es time_directory ≡ false
        → es absolute_entry ≡ false
        → es last_entry ≡ false
        → (e : Entry) → mark mode_class false (mark mode_file false es) e ≡ false
    each es r f l mode_class = refl
    each es r f l mode_file = refl
    each es r f l time_directory = r
    each es r f l absolute_entry = f
    each es r f l last_entry = l

owned : (s : Life) → s.place ≡ loaded → At s.place s → Owned s
unfolding At
owned s e h = subst (λ p. At p s) e h

while_loaded :
    (s : Life) (p r : Bool)
    → s.place ≡ loaded
    → Owned s
    → At s.place (record s { pending = p; running = r })
unfolding At
while_loaded s p r e o =
    subst (λ q. At q (record s { pending = p; running = r })) (sym e)
      (record { directory = o.directory; absolute = o.absolute; last = o.last })

Step-At : (s t : Life) → At s.place s → Step s t → At t.place t
unfolding At time_track_module_exit
Step-At _ _ h (load s t a code e run) =
    let fresh : s ≡ before_load = subst (λ p. At p s) e h in
    let (l, o) = started-Owned a code t (ap (time_track_module_init a) (sym fresh) ∙ run) in
    subst (λ p. At p t) (sym l) o
Step-At _ _ h (load_fault s a e run) = tt
Step-At _ _ h (timer_expires s e p r) = while_loaded s false true e (owned s e h)
Step-At _ _ h (callback_ends s e r) = while_loaded s true false e (owned s e h)
Step-At _ _ h (unload s e) = time_track_module_exit-Cleared s (owned s e h)
Step-At _ _ h (callback_away s e r) = tt
Step-At _ _ h (expires_away s e p) = tt

Reach-At : (s : Life) → Reach s → At s.place s
unfolding At
Reach-At _ here = refl
Reach-At _ (next {s} {t} r step) = Step-At s t (Reach-At s r) step

-- A module that is removed does nothing more as long as no callback runs.
still : (s t : Life) → s.place ≡ gone → s.pending ≡ false → s.running ≡ false → ¬ Step s t
still s t e p r (load _ _ a code l run) = cc
still s t e p r (load_fault _ a l run) = cc
still s t e p r (timer_expires _ l q w) = cc
still s t e p r (callback_ends _ l w) = cc
still s t e p r (unload _ l) = cc
still s t e p r (callback_away _ l w) = cc
still s t e p r (expires_away _ l q) = cc

-- A module that was loaded and removed, in whatever state its timer was and whatever the kernel
-- answered to its start: of the class, its file, the directory and its two files none is registered
-- any more, whichever of them the start could make, and the timer is not pending. If the callback of
-- the timer was running when the module was removed, it goes on in code that is gone; if it was not,
-- nothing more happens.
pub Reach-gone :
    (s : Life)
    → Reach s
    → s.place ≡ gone
    → ((e : Entry) → s.registered e ≡ false)
      × (s.pending ≡ false)
      × (((s.running ≡ true) × Step s (record s { place = crashed }))
          ⊎ ((s.running ≡ false) × ((t : Life) → ¬ Step s t)))
unfolding At
Reach-gone s r e =
    let clear : Cleared s = subst (λ p. At p s) e (Reach-At s r) in
    (
      clear.entries,
      clear.timer,
      elim (Bool-cases s.running) [
        | inl h ↦ inl (h, callback_away s e h)
        | inr h ↦ inr (h, λ t. still s t e clear.timer h)
      ],
    )
