-- ===== src/Reminders/Insert.antt =====
-- What add_user_reminder leaves, on each of its branches.
use Prim.Native.String.{String}
use embedded_basecamp.Prelude.{
  subst, ℕ, ◌≡◌, refl, Bool, true, false, Option, none, some, List, [], ◌∷◌, ◌++◌, arith, mem,
  Distinct, ◌==◌, if◌then◌else◌, Bool-cases, ◌⊎◌, inl, inr, ap, ◌≢◌, ◌∙◌, ◌||◌, ◌&&◌, mem-append,
  Distinct-append_new,
}
use embedded_basecamp.Prelude.Int.{ℤ}
use embedded_basecamp.Prelude.Memory.{Blocks, is_some, update}
use embedded_basecamp.Prelude.Partial.{◌>>=◌}
use embedded_basecamp.Links.{ListLib}
use embedded_basecamp.Reminders.{Reminder, User, Model}
use embedded_basecamp.Reminders.Users.{find_user_entry}
use embedded_basecamp.Reminders.Notifications.{
  insertion_point, insert_reminder_entry, notify_user, new_reminder, add_user_reminder,
}
use embedded_basecamp.Reminders.Invariant.{queue, notes_of, IsValid}
use embedded_basecamp.Reminders.Order.{
  time_of, Ascending, Ascending-retime, insert_sorted, Ascending-insert_sorted, place, InList,
  insertion_point-place,
}

abbrev pub reminder : ℕ → String → ℤ → Reminder
reminder u title t = record { notification_text = title; belongs_to = some u; ellapse_time = t }

-- A new entry in a sorted place is a new entry.
pub mem-insert_sorted :
    (R : Blocks Reminder) (a n : ℕ) (t : ℤ) (rs : List ℕ)
    → mem a (insert_sorted R n t rs) ≡ ((n == a) || mem a rs)
mem-insert_sorted R a n t [] = refl
mem-insert_sorted R a n t (r ∷ rs) = ground (arith, mem-insert_sorted R a n t rs)

Distinct-insert_sorted :
    (R : Blocks Reminder) (n : ℕ) (t : ℤ) (rs : List ℕ)
    → mem n rs ≡ false
    → Distinct rs
    → Distinct (insert_sorted R n t rs)
Distinct-insert_sorted R n t [] f d = (refl, tt)
Distinct-insert_sorted R n t (r ∷ rs) f d =
    ground (arith, mem-insert_sorted R r n t rs, Distinct-insert_sorted R n t rs)

insert_sorted_ext :
    (R S : Blocks Reminder) (n : ℕ) (t : ℤ) (rs : List ℕ)
    → ((r : ℕ) → mem r rs ≡ true → S r ≡ R r)
    → insert_sorted S n t rs ≡ insert_sorted R n t rs
insert_sorted_ext R S n t [] h = refl
insert_sorted_ext R S n t (r ∷ rs) h =
    rw (h r (ground arith), insert_sorted_ext R S n t rs (λ s k. h s (ground arith)))

module _ {C : Type 0} (lib : ListLib C) where
  open lib use {
    entries, list_add_tail, list_add_before, entries-list_add_tail, entries-list_add_before,
  }

  -- An address that holds no reminder is in no list.
  fresh-queue :
      (m : Model C) (r : ℕ) → IsValid lib m → m.reminders r ≡ none → mem r (queue lib m) ≡ false
  fresh-queue m r v f = elim (Bool-cases (mem r (queue lib m))) [
    | inl h ↦ let (u, o, n) = v.queue_owned r h in absurd (ground arith)
    | inr h ↦ h
  ]

  pub fresh-notes :
      (m : Model C) (r u : ℕ)
      → IsValid lib m
      → m.reminders r ≡ none
      → mem r (notes_of lib (m.users u)) ≡ false
  fresh-notes m r u v f = elim (Bool-cases (mem r (notes_of lib (m.users u)))) [
    | inl h ↦ let (q, o) = v.notes_queued u r h in absurd (ground arith)
    | inr h ↦ h
  ]

  queued-live :
      (m : Model C) (s : ℕ)
      → IsValid lib m
      → mem s (queue lib m) ≡ true
      → is_some (m.reminders s) ≡ true
  queued-live m s v q = let (u, o, n) = v.queue_owned s q in ground arith

  -- The insertion into the global list, as the list operation.
  insert_reminder_entry-sorted :
      (m : Model C) (r : ℕ) (t : ℤ)
      → Distinct (queue lib m)
      → mem r (queue lib m) ≡ false
      → ((s : ℕ) → mem s (queue lib m) ≡ true → is_some (m.reminders s) ≡ true)
      → (c : C) × (insert_reminder_entry lib r t m ≡ some (record m { reminders_list = c }))
        × (entries c ≡ insert_sorted m.reminders r t (queue lib m))
  unfolding insert_reminder_entry
  insert_reminder_entry-sorted m r t d f live =
      placed (insertion_point-place m r t (queue lib m) d live)
    where
      placed :
          ((point : Option ℕ) × (insertion_point (queue lib m) t m ≡ some point)
            × InList point (queue lib m)
            × (place r point (queue lib m) ≡ insert_sorted m.reminders r t (queue lib m)))
          → (c : C) × ((insertion_point (queue lib m) t m >>= λ point. elim point [
            | none ↦ some (record m { reminders_list = list_add_tail r m.reminders_list })
            | some p ↦ some (record m { reminders_list = list_add_before r p m.reminders_list })
          ])
              ≡ some (record m { reminders_list = c }))
            × (entries c ≡ insert_sorted m.reminders r t (queue lib m))
      placed (none, run, here, eq) = (
        list_add_tail r m.reminders_list,
        rw run,
        entries-list_add_tail r m.reminders_list f ∙ eq,
      )
      placed (some p, run, here, eq) = (
        list_add_before r p m.reminders_list,
        rw run,
        entries-list_add_before r p m.reminders_list f here ∙ eq,
      )

  -- What the call leaves where both blocks are there: `c` is the new global list and `x'` the user.
  abbrev pub added : Model C → ℕ → ℕ → User C → Reminder → C → Model C
  added m u r x e c = record m {
    reminders_list = c;
    users =
        update m.users u
          (some (record x { notifications_list = list_add_tail r x.notifications_list }));
    reminders = update m.reminders r (some e);
  }

  module _ (m : Model C) (u r : ℕ) (x : User C) (title : String) (t : ℤ) (v : IsValid lib m)
      (live : m.users u ≡ some x) (fresh : m.reminders r ≡ none) where
    abbrev e : Reminder
    e = reminder u title t

    pub new_reminder-added :
        (c : C) × (new_reminder lib u r title t m ≡ some (added m u r x e c))
        × (entries c ≡ insert_sorted m.reminders r t (queue lib m))
    unfolding new_reminder notify_user
    new_reminder-added =
        let m1 = added m u r x e m.reminders_list in
        let outside : (s : ℕ) → mem s (queue lib m) ≡ true → m1.reminders s ≡ m.reminders s =
          λ s h. ground (arith, fresh-queue m r v fresh) in
        let (c, run, eq) =
          insert_reminder_entry-sorted m1 r t v.queue_distinct (fresh-queue m r v fresh)
            (λ s h. rw (outside s h) (queued-live m s v h)) in
        (c, rw live run, eq ∙ insert_sorted_ext m.reminders m1.reminders r t (queue lib m) outside)

    module _ (c : C) (sorted : entries c ≡ insert_sorted m.reminders r t (queue lib m)) where
      pub added-notes :
          (w : ℕ)
          → notes_of lib ((added m u r x e c).users w)
            ≡ (if w == u then notes_of lib (m.users w) ++ r ∷ [] else notes_of lib (m.users w))
      added-notes w = elim (Bool-cases (w == u)) [
        | inl h ↦
            let k : w ≡ u = ground arith in
            rw (h, k, live)
              (entries-list_add_tail r x.notifications_list
                (rw live at (fresh-notes m r u v fresh)))
        | inr h ↦ rw h
      ]

      mem-added_notes :
          (w s : ℕ)
          → mem s (notes_of lib ((added m u r x e c).users w))
            ≡ (((w == u) && (r == s)) || mem s (notes_of lib (m.users w)))
      mem-added_notes w s =
          rw (added-notes w) (ground (arith, mem-append s (notes_of lib (m.users w)) (r ∷ [])))

      mem-added_queue : (s : ℕ) → mem s (entries c) ≡ ((r == s) || mem s (queue lib m))
      mem-added_queue s = rw sorted (mem-insert_sorted m.reminders s r t (queue lib m))

      pub added-IsValid : IsValid lib (added m u r x e c)
      added-IsValid = record {
        users_live = λ w h. ground (arith, v.users_live w h);
        users_distinct = v.users_distinct;
        queue_distinct = rw sorted (
            Distinct-insert_sorted m.reminders r t (queue lib m) (fresh-queue m r v fresh)
              v.queue_distinct);
        queue_owned = λ s q. elim (Bool-cases (r == s)) [
          | inl h ↦ (u, ground arith, rw (mem-added_notes u s) (ground arith))
          | inr h ↦
              let (w, o, n) = v.queue_owned s (ground (arith, mem-added_queue s)) in
              (w, ground arith, rw (mem-added_notes w s) (ground arith))
        ];
        notes_distinct = λ w. rw (added-notes w) (
            ground (
              arith,
              Distinct-append_new r (notes_of lib (m.users w)) (fresh-notes m r w v fresh)
                  (v.notes_distinct w),
              v.notes_distinct w,
            ));
        notes_queued =
            λ w s n. ground (arith, mem-added_queue s, mem-added_notes w s, v.notes_queued w s);
      }

  module _ (m : Model C) (name title : String) (t : ℤ) where
    -- If a user has the name and both allocations succeed, the new reminder stands in the global
    -- list behind all that are not later and in front of the first that is, and at the end of the
    -- user's list; every other user's list is as before, and the model stays valid.
    pub add_user_reminder-added :
        (u r : ℕ) (x : User C)
        → IsValid lib m
        → find_user_entry lib name m ≡ some (some u)
        → m.users u ≡ some x
        → m.reminders r ≡ none
        → (m' : Model C) × (add_user_reminder lib (some r) true name title t m ≡ some m')
          × IsValid lib m'
          × (queue lib m' ≡ insert_sorted m.reminders r t (queue lib m))
          × (m'.reminders r ≡ some (reminder u title t))
          × ((s : ℕ) → s ≢ r → m'.reminders s ≡ m.reminders s)
          × ((w : ℕ)
              → notes_of lib (m'.users w)
                ≡ (if w == u then notes_of lib (m.users w) ++ r ∷ [] else notes_of lib (m.users w)))
    unfolding add_user_reminder
    add_user_reminder-added u r x v found live fresh =
        let (c, run, eq) = new_reminder-added m u r x title t v live fresh in
        (
          added m u r x (reminder u title t) c,
          rw found run,
          added-IsValid m u r x title t v live fresh c eq,
          eq,
          ground arith,
          λ s h. ground arith,
          added-notes m u r x title t v live fresh c eq,
        )

    -- An ascending queue stays ascending.
    pub add_user_reminder-Ascending :
        (u r : ℕ) (x : User C) {m' : Model C}
        → IsValid lib m
        → find_user_entry lib name m ≡ some (some u)
        → m.users u ≡ some x
        → m.reminders r ≡ none
        → add_user_reminder lib (some r) true name title t m ≡ some m'
        → Ascending m.reminders (queue lib m)
        → Ascending m'.reminders (queue lib m')
    add_user_reminder-Ascending u r x {m'} v found live fresh run a =
        let (m1, run1, v1, q1, new, old, notes) =
          add_user_reminder-added u r x v found live fresh in
        let same : m1 ≡ m' = cc (run, run1) in
        let out = fresh-queue m r v fresh in
        let kept : (s : ℕ)
            → mem s (queue lib m) ≡ true
            → time_of (m1.reminders s) ≡ time_of (m.reminders s) =
          λ s h. ap time_of (old s (λ k. ground arith)) in
        let ordered =
          Ascending-retime (λ z. z) (λ a b k. k) m.reminders m1.reminders (queue lib m) kept a in
        subst (λ z. Ascending z.reminders (queue lib z)) same
          (rw
            (
              q1,
              ← insert_sorted_ext m.reminders m1.reminders r t (queue lib m)
                  (λ s h. old s (λ k. ground arith)),
            )
            (Ascending-insert_sorted m1.reminders r t (queue lib m) (ap time_of new) ordered))

    -- Without such a user, or if an allocation fails, nothing changes.
    pub add_user_reminder-unchanged :
        (block : Option ℕ) (buffer : Bool) (found : Option ℕ)
        → find_user_entry lib name m ≡ some found
        → (found ≡ none) ⊎ ((block ≡ none) ⊎ (buffer ≡ false))
        → add_user_reminder lib block buffer name title t m ≡ some m
    unfolding add_user_reminder
    add_user_reminder-unchanged block buffer none h k = rw h
    add_user_reminder-unchanged none buffer (some u) h k = rw h
    add_user_reminder-unchanged (some r) buffer (some u) h k = rw h (ground arith)
