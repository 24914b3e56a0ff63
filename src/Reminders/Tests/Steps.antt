-- ===== src/Reminders/Tests/Steps.antt =====
-- Each call at its stage: it does not fault, and leads to the next stage.
use Prim.Native.String.{String}
use embedded_basecamp.Prelude.{
  ℕ, ◌≡◌, refl, ◌∙◌, Bool, true, false, Option, none, some, List, [], ◌∷◌, not, if◌then◌else◌,
  arith, mem, keep, mem-keep, Distinct,
}
use embedded_basecamp.Prelude.Memory.{is_some}
use embedded_basecamp.Links.{ListLib}
use embedded_basecamp.Reminders.{User, Model}
use embedded_basecamp.Reminders.Users.{cleanup_users, remove_user}
use embedded_basecamp.Reminders.Notifications.{cleanup_reminders_in, cleanup_reminders}
use embedded_basecamp.Reminders.Invariant.{queue, notes_of}
use embedded_basecamp.Reminders.Removal.{named, remove_user-Dropped}
use embedded_basecamp.Reminders.Cleanup.{
  none_left, cleanup_users_in-UsersFreed, cleanup_reminders_in-RemindersFreed,
}
use embedded_basecamp.Reminders.Tests.Stages.{IsQuiet, IsOrphaned, queued_live}

keep-Distinct : (p : ℕ → Bool) (xs : List ℕ) → Distinct xs → Distinct (keep p xs)
keep-Distinct p [] d = tt
keep-Distinct p (x ∷ xs) d = ground (arith, mem-keep x p xs, keep-Distinct p xs d.1)

none_of : {A : Type 0} (b : Option A) → ¬ (is_some b ≡ true) → b ≡ none
none_of none h = refl
none_of (some x) h = absurd (h refl)

module _ {C : Type 0} (lib : ListLib C) where
  open lib use {entries}

  none_queued : (m : Model C) (r : ℕ) → queue lib m ≡ [] → mem r (queue lib m) ≡ true → ⊥
  none_queued m r e h = let k = rw e at h in cc

  -- A model without users and reminders.
  pub empty-IsQuiet :
      (m : Model C)
      → entries m.users_list ≡ []
      → queue lib m ≡ []
      → ((u : ℕ) → m.users u ≡ none)
      → ((r : ℕ) → m.reminders r ≡ none)
      → m.callback_set ≡ false
      → IsQuiet lib m
  empty-IsQuiet m no_user no_reminder users reminders off = record {
    ready = record {
      valid = record {
        users_live = λ u h. let k = rw no_user at h in cc;
        users_distinct = rw no_user tt;
        queue_distinct = rw no_reminder tt;
        queue_owned = λ r h. absurd (none_queued m r no_reminder h);
        notes_distinct = λ u. rw (users u) tt;
        notes_queued = λ u r h. let k = rw (users u) at h in cc;
      };
      positive = λ r h. absurd (none_queued m r no_reminder h);
    };
    accounts = record {
      users_listed = λ u h. let k = rw (users u) at h in cc;
      reminders_queued = λ r h. let k = rw (reminders r) at h in cc;
    };
    off = off;
  }

  module _ (m : Model C) (q : IsQuiet lib m) where
    pub cleanup_users-IsOrphaned :
        (m' : Model C) × (cleanup_users lib m ≡ some m')
        × IsOrphaned lib m'
        × (queue lib m' ≡ queue lib m)
    unfolding cleanup_users
    cleanup_users-IsOrphaned =
        let v = q.ready.valid in
        let (m', run, t) =
          cleanup_users_in-UsersFreed lib (entries m.users_list) m refl v.users_distinct
            v.users_live in
        (
          m',
          run,
          record {
            no_entry = t.no_entry;
            users_free = λ u. t.freed u ∙ none_left (m.users u) _ (q.accounts.users_listed u);
            apart = rw t.same_queue v.queue_distinct;
            live = λ r h. rw (t.same_reminders r) (queued_live lib m r v (rw (← t.same_queue) h));
            held = λ r h.
                rw t.same_queue (q.accounts.reminders_queued r (rw (← t.same_reminders r) h));
            off = t.same_callback ∙ q.off;
          },
          t.same_queue,
        )

    -- A user is removed while nothing is queued.
    pub remove_user-blank :
        (name : String)
        → queue lib m ≡ []
        → (m' : Model C) × (remove_user lib name m ≡ some m') × IsQuiet lib m' × (queue lib m' ≡ [])
    remove_user-blank name e =
        let v = q.ready.valid in
        let (m', run, users, d) = remove_user-Dropped lib m name v in
        let e' : queue lib m' ≡ [] = d.same_queue ∙ e in
        let p : ℕ → Bool = λ u. not (named name (m.users u)) in
        (
          m',
          run,
          record {
            ready = record {
              valid = record {
                users_live = λ u h.
                    let k = rw (users, mem-keep u p (entries m.users_list)) at h in
                    ground (arith, d.freed u, v.users_live u);
                users_distinct = rw users (keep-Distinct p (entries m.users_list) v.users_distinct);
                queue_distinct = rw e' tt;
                queue_owned = λ r h. absurd (none_queued m' r e' h);
                notes_distinct =
                    λ u. rw (d.freed u) (unless_Distinct _ (m.users u) (v.notes_distinct u));
                notes_queued = λ u r h. absurd (
                    none_queued m r e
                      (v.notes_queued u r (unless_mem _ (m.users u) r (rw (d.freed u) at h))).0);
              };
              positive = λ r h. absurd (none_queued m' r e' h);
            };
            accounts = record {
              users_listed = λ u h.
                  rw (users, mem-keep u p (entries m.users_list))
                    (ground (arith, d.freed u, q.accounts.users_listed u));
              reminders_queued = λ r h.
                  rw d.same_queue (q.accounts.reminders_queued r (rw (← d.same_reminders r) h));
            };
            off = d.same_callback ∙ q.off;
          },
          e',
        )
      where
        unless_Distinct :
            (b : Bool) (x : Option (User C))
            → Distinct (notes_of lib x)
            → Distinct (notes_of lib (if b then none else x))
        unless_Distinct true x h = tt
        unless_Distinct false x h = h

        unless_mem :
            (b : Bool) (x : Option (User C)) (r : ℕ)
            → mem r (notes_of lib (if b then none else x)) ≡ true
            → mem r (notes_of lib x) ≡ true
        unless_mem true x r h = cc
        unless_mem false x r h = h

  pub cleanup_reminders-orphaned :
      (m : Model C)
      → IsOrphaned lib m
      → (m' : Model C) × (cleanup_reminders lib m ≡ some m') × IsQuiet lib m' × (queue lib m' ≡ [])
  unfolding cleanup_reminders
  cleanup_reminders-orphaned m o =
      let (m', run, t) =
        cleanup_reminders_in-RemindersFreed lib (queue lib m) m refl o.apart o.live in
      (
        m',
        run,
        empty-IsQuiet m' (t.same_list ∙ o.no_entry) t.no_entry
            (λ u. t.same_users u ∙ o.users_free u)
            (λ r. t.freed r ∙ none_left (m.reminders r) _ (o.held r)) (t.same_callback ∙ o.off),
        t.no_entry,
      )

  -- With nothing queued, the cleanup of the users leaves nothing.
  pub cleanup_users-blank :
      (m : Model C)
      → IsQuiet lib m
      → queue lib m ≡ []
      → (m' : Model C) × (cleanup_users lib m ≡ some m') × IsQuiet lib m' × (queue lib m' ≡ [])
  cleanup_users-blank m q e =
      let (m', run, o, same) = cleanup_users-IsOrphaned m q in
      let e' : queue lib m' ≡ [] = same ∙ e in
      (
        m',
        run,
        empty-IsQuiet m' o.no_entry e' o.users_free
            (λ r. none_of (m'.reminders r) (λ h. none_queued m' r e' (o.held r h))) o.off,
        e',
      )

  pub cleanup_reminders-blank : (m : Model C) → queue lib m ≡ [] → cleanup_reminders lib m ≡ some m
  unfolding cleanup_reminders cleanup_reminders_in
  cleanup_reminders-blank m e = rw e refl
