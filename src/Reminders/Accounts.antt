-- ===== src/Reminders/Accounts.antt =====
-- The blocks that the reminders model holds: each is in a list, whatever the calls.
use Prim.Native.String.{String}
use embedded_basecamp.Prelude.{
  ℕ, ◌≡◌, true, none, some, List, [], ◌∷◌, arith, mem, mem-erase, mem-append, mem-keep, keep, not,
  ◌&&◌,
}
use embedded_basecamp.Prelude.Int.{ℤ}
use embedded_basecamp.Prelude.Memory.{is_some}
use embedded_basecamp.Links.{ListLib}
use embedded_basecamp.Reminders.{User, Event, Model, initial}
use embedded_basecamp.Reminders.Invariant.{owner_of, queue, IsValid, unlinked, unlinked-queue}
use embedded_basecamp.Reminders.Names.{enrolled, listed}
use embedded_basecamp.Reminders.Order.{insert_sorted}
use embedded_basecamp.Reminders.Insert.{reminder, added, mem-insert_sorted}
use embedded_basecamp.Reminders.Due.{is_due}
use embedded_basecamp.Reminders.Tick.{Ticked}

module _ {C : Type 0} (lib : ListLib C) where
  open lib use {entries}

  -- A user's block is in the list of users, a reminder's in the queue: nothing else holds them.
  pub record IsAccounted (m : Model C) : Type 0 where
    pub users_listed : (u : ℕ) → is_some (m.users u) ≡ true → mem u (entries m.users_list) ≡ true
    pub reminders_queued : (r : ℕ) → is_some (m.reminders r) ≡ true → mem r (queue lib m) ≡ true

  pub initial-IsAccounted : IsAccounted (initial lib)
  initial-IsAccounted = record { users_listed = λ u h. cc; reminders_queued = λ r h. cc }

  pub enrolled-IsAccounted :
      (m : Model C) (name : String) (u : ℕ)
      → IsValid lib m
      → m.users u ≡ none
      → IsAccounted m
      → IsAccounted (enrolled lib m u name)
  enrolled-IsAccounted m name u v fresh a = record {
    users_listed = λ w h.
        rw (listed lib m name u v fresh, mem-append w (entries m.users_list) (u ∷ []))
          (ground (arith, a.users_listed w));
    reminders_queued = a.reminders_queued;
  }

  pub added-IsAccounted :
      (m : Model C) (u r : ℕ) (x : User C) (title : String) (t : ℤ) (c : C)
      → m.users u ≡ some x
      → entries c ≡ insert_sorted m.reminders r t (queue lib m)
      → IsAccounted m
      → IsAccounted (added lib m u r x (reminder u title t) c)
  added-IsAccounted m u r x title t c live sorted a = record {
    users_listed = λ w h. ground (arith, a.users_listed w);
    reminders_queued = λ s h.
        rw (sorted, mem-insert_sorted m.reminders s r t (queue lib m))
          (ground (arith, a.reminders_queued s));
  }

  pub unlinked-IsAccounted :
      (m : Model C) (u r : ℕ) (x : User C) (evs : List Event)
      → m.users u ≡ some x
      → mem r (queue lib m) ≡ true
      → owner_of (m.reminders r) ≡ some u
      → IsValid lib m
      → IsAccounted m
      → IsAccounted (unlinked lib m u x r evs)
  unlinked-IsAccounted m u r x evs live q o v a = record {
    users_listed = λ w h. ground (arith, a.users_listed w);
    reminders_queued = λ s h.
        rw
          (
            unlinked-queue lib {m = m} u x r evs live q o v,
            mem-erase s r (queue lib m) v.queue_distinct,
          )
          (ground (arith, a.reminders_queued s));
  }

  pub Ticked-IsAccounted :
      (m m' : Model C)
      → queue lib m' ≡ keep (λ r. not (is_due (m.reminders r))) (queue lib m)
      → Ticked lib m.reminders (queue lib m) m m'
      → IsAccounted m
      → IsAccounted m'
  Ticked-IsAccounted m m' q t a = record {
    users_listed = λ w h. rw t.same_users (a.users_listed w (named w h));
    reminders_queued =
        λ s h. rw (q, mem-keep s (λ r. not (is_due (m.reminders r))) (queue lib m)) (live s h);
  }
    where
      named : (w : ℕ) → is_some (m'.users w) ≡ true → is_some (m.users w) ≡ true
      named w h = ground (arith, t.same_names w)

      live :
          (s : ℕ)
          → is_some (m'.reminders s) ≡ true
          → (mem s (queue lib m) && not (is_due (m.reminders s))) ≡ true
      live s h = ground (arith, t.memory s, a.reminders_queued s)
