-- ===== src/Reminders/Invariant.antt =====
-- The well-formedness of the reminders model, and the basic changes: a new time, an unlinked
-- reminder.
use Prim.Native.String.{String}
use embedded_basecamp.Prelude.{
  ℕ, ◌≡◌, true, false, Option, none, some, List, [], arith, mem, erase, Distinct, ◌==◌, mem-erase,
  erase-Distinct, erase_absent, subst, ◌≢◌, Bool-cases, inl, inr, sym, ==_iff,
}
use embedded_basecamp.Prelude.Int.{ℤ}
use embedded_basecamp.Prelude.Memory.{update, is_some}
use embedded_basecamp.Links.{ListLib}
use embedded_basecamp.Reminders.{Reminder, User, Event, Model, initial}

abbrev pub owner_of : Option Reminder → Option ℕ
owner_of none = none
owner_of (some e) = e.belongs_to

abbrev pub name_of : {C : Type 0} → Option (User C) → Option String
name_of none = none
name_of (some x) = some x.user_name

abbrev pub retimed : {C : Type 0} → Model C → ℕ → Reminder → ℤ → Model C
retimed m r e t = record m {
  reminders = update m.reminders r (some (record e { ellapse_time = t }));
}

module _ {C : Type 0} (lib : ListLib C) where
  open lib use {entries, list_del, entries-list_del}

  abbrev pub queue : Model C → List ℕ
  queue m = entries m.reminders_list

  abbrev pub notes_of : Option (User C) → List ℕ
  notes_of none = []
  notes_of (some x) = entries x.notifications_list

  -- An entry of the queue is live and stands in the list of its live owner, once; an entry of a
  -- user's list stands in the queue and belongs to the user.
  pub record IsValid (m : Model C) : Type 0 where
    pub users_live : (u : ℕ) → mem u (entries m.users_list) ≡ true → is_some (m.users u) ≡ true
    pub users_distinct : Distinct (entries m.users_list)
    pub queue_distinct : Distinct (queue m)
    pub queue_owned :
        (r : ℕ)
        → mem r (queue m) ≡ true
        → (u : ℕ) × (owner_of (m.reminders r) ≡ some u) × (mem r (notes_of (m.users u)) ≡ true)
    pub notes_distinct : (u : ℕ) → Distinct (notes_of (m.users u))
    pub notes_queued :
        (u r : ℕ)
        → mem r (notes_of (m.users u)) ≡ true
        → (mem r (queue m) ≡ true) × (owner_of (m.reminders r) ≡ some u)

  pub retimed-IsValid :
      {m : Model C} (r : ℕ) (e : Reminder) (t : ℤ)
      → m.reminders r ≡ some e
      → IsValid m
      → IsValid (retimed m r e t)
  retimed-IsValid r e t h v = record {
    users_live = v.users_live;
    users_distinct = v.users_distinct;
    queue_distinct = v.queue_distinct;
    queue_owned = λ s q. let (u, o, n) = v.queue_owned s q in (u, ground (arith), n);
    notes_distinct = v.notes_distinct;
    notes_queued = λ u s n. ground (arith, v.notes_queued u s n);
  }

  abbrev pub unlinked : Model C → ℕ → User C → ℕ → List Event → Model C
  unlinked m u x r evs = record m {
    reminders_list = list_del r m.reminders_list;
    users =
        update m.users u (some (record x { notifications_list = list_del r x.notifications_list }));
    reminders = update m.reminders r none;
    events = evs;
  }

  module _ {m : Model C} (u : ℕ) (x : User C) (r : ℕ) (evs : List Event) (live : m.users u ≡ some x)
      (queued : mem r (queue m) ≡ true) (owner : owner_of (m.reminders r) ≡ some u)
      (v : IsValid m) where
    pub own_note : mem r (notes_of (m.users u)) ≡ true
    own_note =
        let (w, o, n) = v.queue_owned r queued in
        let e : w ≡ u = cc (o, owner) in subst (λ k. mem r (notes_of (m.users k)) ≡ true) e n

    pub unlinked-queue : queue (unlinked m u x r evs) ≡ erase (queue m) r
    unlinked-queue = entries-list_del r m.reminders_list queued

    foreign_note : (w : ℕ) → w ≢ u → mem r (notes_of (m.users w)) ≡ false
    foreign_note w ne = elim (Bool-cases (mem r (notes_of (m.users w)))) [
      | inl h ↦ absurd (ground (arith, v.notes_queued w r h))
      | inr h ↦ h
    ]

    pub unlinked-notes :
        (w : ℕ) → notes_of ((unlinked m u x r evs).users w) ≡ erase (notes_of (m.users w)) r
    unlinked-notes w = elim (Bool-cases (w == u)) [
      | inl h ↦
          let e : w ≡ u = (==_iff w u).0 h in
          rw (e, live)
            (ground (arith, entries-list_del r x.notifications_list (rw live at own_note)))
      | inr h ↦ rw h (sym (erase_absent r (notes_of (m.users w)) (foreign_note w (ground arith))))
    ]

    pub unlinked-IsValid : IsValid (unlinked m u x r evs)
    unlinked-IsValid = record {
      users_live = λ w h. ground (arith, v.users_live w h);
      users_distinct = v.users_distinct;
      queue_distinct = rw unlinked-queue (erase-Distinct r (queue m) v.queue_distinct);
      queue_owned = λ s q.
          let q' = rw (unlinked-queue, mem-erase s r (queue m) v.queue_distinct) at q in
          let (w, o, n) = v.queue_owned s (ground arith) in
          (
            w,
            ground arith,
            rw (unlinked-notes w, mem-erase s r (notes_of (m.users w)) (v.notes_distinct w))
                (ground arith),
          );
      notes_distinct = λ w. rw (unlinked-notes w) (erase-Distinct r _ (v.notes_distinct w));
      notes_queued = λ w s n.
          let n' =
            rw (unlinked-notes w, mem-erase s r (notes_of (m.users w)) (v.notes_distinct w)) at n in
          let (q, o) = v.notes_queued w s (ground arith) in
          (
            rw (unlinked-queue, mem-erase s r (queue m) v.queue_distinct) (ground arith),
            ground arith,
          );
    }

  pub initial-IsValid : IsValid (initial lib)
  initial-IsValid = record {
    users_live = λ u h. absurd (nothing u h);
    users_distinct = rw lib.entries-init_list_head tt;
    queue_distinct = rw lib.entries-init_list_head tt;
    queue_owned = λ r h. absurd (nothing r h);
    notes_distinct = λ u. tt;
    notes_queued = λ u r h. cc;
  }
    where
      nothing : (u : ℕ) → mem u (entries lib.init_list_head) ≡ true → ⊥
      nothing u h = let k = rw lib.entries-init_list_head at h in cc
