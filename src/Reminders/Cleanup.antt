-- ===== src/Reminders/Cleanup.antt =====
-- cleanup_users and cleanup_reminders: the release of all blocks.
use embedded_basecamp.Prelude.{
  ℕ, ◌≡◌, refl, ◌∙◌, Bool, true, false, Option, none, some, List, [], ◌∷◌, arith, mem, Distinct,
  if◌then◌else◌, Option-cases, inl, inr,
}
use embedded_basecamp.Prelude.Memory.{is_some, update}
use embedded_basecamp.Prelude.Partial.{◌>>=◌}
use embedded_basecamp.Links.{ListLib}
use embedded_basecamp.Reminders.{Model}
use embedded_basecamp.Reminders.Users.{drop_user, cleanup_users_in, cleanup_users}
use embedded_basecamp.Reminders.Notifications.{cleanup_reminders_in, cleanup_reminders}
use embedded_basecamp.Reminders.Invariant.{owner_of, queue, IsValid}
use embedded_basecamp.Reminders.Accounts.{IsAccounted}

-- What is left of a block under a test that holds for each live block.
pub none_left :
    {A : Type 0} (b : Option A) (k : Bool)
    → (is_some b ≡ true → k ≡ true)
    → (if k then none else b) ≡ none
none_left none true h = refl
none_left none false h = refl
none_left (some a) k h = rw (h refl) refl

module _ {C : Type 0} (lib : ListLib C) where
  open lib use {entries, entries-list_del}

  -- What the loop of cleanup_users over `todo` makes of `m`.
  pub record UsersFreed (todo : List ℕ) (m m' : Model C) : Type 0 where
    pub no_entry : entries m'.users_list ≡ []
    pub freed : (u : ℕ) → m'.users u ≡ (if mem u todo then none else m.users u)
    pub same_queue : queue lib m' ≡ queue lib m
    pub same_reminders : (r : ℕ) → m'.reminders r ≡ m.reminders r
    pub same_callback : m'.callback_set ≡ m.callback_set

  pub cleanup_users_in-UsersFreed :
      (todo : List ℕ) (m : Model C)
      → entries m.users_list ≡ todo
      → Distinct todo
      → ((u : ℕ) → mem u todo ≡ true → is_some (m.users u) ≡ true)
      → (m' : Model C) × (cleanup_users_in lib todo m ≡ some m') × UsersFreed todo m m'
  unfolding cleanup_users_in drop_user
  cleanup_users_in-UsersFreed [] m q d live = (
    m,
    refl,
    record {
      no_entry = q;
      freed = λ u. refl;
      same_queue = refl;
      same_reminders = λ r. refl;
      same_callback = refl;
    },
  )
  cleanup_users_in-UsersFreed (u ∷ todo) m q d live = elim (Option-cases (m.users u)) [
    | inl h ↦ absurd (ground (arith, live u (ground arith)))
    | inr (x, h) ↦
        let q1 : entries (drop_user lib u m).users_list ≡ todo =
          entries-list_del u m.users_list (rw q (ground arith)) ∙ rw q (ground arith) in
        let (m', run, t) =
          cleanup_users_in-UsersFreed todo (drop_user lib u m) q1 d.1
            (λ w k. ground (arith, live w)) in
        (
          m',
          rw h run,
          record {
            no_entry = t.no_entry;
            freed = λ w. ground (arith, t.freed w);
            same_queue = t.same_queue;
            same_reminders = t.same_reminders;
            same_callback = t.same_callback;
          },
        )
  ]

  -- And the loop of cleanup_reminders.
  pub record RemindersFreed (todo : List ℕ) (m m' : Model C) : Type 0 where
    pub no_entry : queue lib m' ≡ []
    pub freed : (r : ℕ) → m'.reminders r ≡ (if mem r todo then none else m.reminders r)
    pub same_list : entries m'.users_list ≡ entries m.users_list
    pub same_users : (u : ℕ) → m'.users u ≡ m.users u
    pub same_callback : m'.callback_set ≡ m.callback_set

  pub cleanup_reminders_in-RemindersFreed :
      (todo : List ℕ) (m : Model C)
      → queue lib m ≡ todo
      → Distinct todo
      → ((r : ℕ) → mem r todo ≡ true → is_some (m.reminders r) ≡ true)
      → (m' : Model C) × (cleanup_reminders_in lib todo m ≡ some m') × RemindersFreed todo m m'
  unfolding cleanup_reminders_in
  cleanup_reminders_in-RemindersFreed [] m q d live = (
    m,
    refl,
    record {
      no_entry = q;
      freed = λ r. refl;
      same_list = refl;
      same_users = λ u. refl;
      same_callback = refl;
    },
  )
  cleanup_reminders_in-RemindersFreed (r ∷ todo) m q d live = elim (Option-cases (m.reminders r)) [
    | inl h ↦ absurd (ground (arith, live r (ground arith)))
    | inr (e, h) ↦
        let gone : Model C = record m {
          reminders_list = lib.list_del r m.reminders_list;
          reminders = update m.reminders r none;
        } in
        let q1 : queue lib gone ≡ todo =
          entries-list_del r m.reminders_list (rw q (ground arith)) ∙ rw q (ground arith) in
        let (m', run, t) =
          cleanup_reminders_in-RemindersFreed todo gone q1 d.1 (λ s k. ground (arith, live s)) in
        (
          m',
          rw h run,
          record {
            no_entry = t.no_entry;
            freed = λ s. ground (arith, t.freed s);
            same_list = t.same_list;
            same_users = t.same_users;
            same_callback = t.same_callback;
          },
        )
  ]

  -- No list has an entry and no block is held.
  pub record IsReleased (m : Model C) : Type 0 where
    pub no_user : entries m.users_list ≡ []
    pub no_reminder : queue lib m ≡ []
    pub users_free : (u : ℕ) → m.users u ≡ none
    pub reminders_free : (r : ℕ) → m.reminders r ≡ none

  -- On a valid model that holds no block outside of its lists, cleanup_users and then
  -- cleanup_reminders do not fault and release everything.
  pub cleanup-IsReleased :
      (m : Model C)
      → IsValid lib m
      → IsAccounted lib m
      → (m' : Model C) × ((cleanup_users lib m >>= cleanup_reminders lib) ≡ some m') × IsReleased m'
  unfolding cleanup_users cleanup_reminders
  cleanup-IsReleased m v a =
      let (m1, run1, t) =
        cleanup_users_in-UsersFreed (entries m.users_list) m refl v.users_distinct v.users_live in
      let queued : (r : ℕ) → mem r (queue lib m1) ≡ true → is_some (m1.reminders r) ≡ true = λ r k.
        let (u, o, n) = v.queue_owned r (rw (← t.same_queue) k) in
        rw (t.same_reminders r) (owned_live m r u o) in
      let (m2, run2, s) =
        cleanup_reminders_in-RemindersFreed (queue lib m1) m1 refl
          (rw t.same_queue v.queue_distinct) queued in
      (
        m2,
        rw run1 run2,
        record {
          no_user = s.same_list ∙ t.no_entry;
          no_reminder = s.no_entry;
          users_free = λ u. s.same_users u ∙ t.freed u ∙ none_left (m.users u) _ (a.users_listed u);
          reminders_free = λ r.
              s.freed r
              ∙ rw (t.same_queue, t.same_reminders r)
                  (none_left (m.reminders r) _ (a.reminders_queued r));
        },
      )
    where
      owned_live :
          (m : Model C) (r u : ℕ)
          → owner_of (m.reminders r) ≡ some u
          → is_some (m.reminders r) ≡ true
      owned_live m r u o = ground arith
