-- ===== src/Reminders/Remove.antt =====
-- What remove_user_notification leaves, on each of its branches.
use Prim.Native.String.{String}
use embedded_basecamp.Prelude.{
  subst, ℕ, zero, suc, ◌+◌, ◌≤◌, ◌≡◌, refl, Bool, true, false, Option, none, some, List, [], ◌∷◌,
  ◌++◌, arith, mem, erase, length, Option-cases, ◌⊎◌, inl, inr, ◌≢◌, ◌∙◌, mem-append,
  erase-append_self, Distinct-append_cons,
}
use embedded_basecamp.Prelude.Int.{
  ℤ, pos, negsuc, ◌≤ℤ◌, eqb_ℤ, int_min, decrement_pos, pred_ℤ, pos_part, neg_part, decrement,
}
use embedded_basecamp.Links.{ListLib}
use embedded_basecamp.Reminders.{User, Model}
use embedded_basecamp.Reminders.Users.{find_user_entry}
use embedded_basecamp.Reminders.Notifications.{
  scan_user, scan_global, drop_notification, remove_found, remove_user_notification,
}
use embedded_basecamp.Reminders.Invariant.{
  owner_of, queue, notes_of, IsValid, unlinked, unlinked-queue, unlinked-notes, unlinked-IsValid,
}

-- The loop stops at the entry with the number.
scan_user-hit :
    (xs ys : List ℕ) (r k : ℕ) (it : Option ℕ)
    → scan_user (xs ++ r ∷ ys) (pos (k + length xs)) k it ≡ (true, some r)
unfolding scan_user
scan_user-hit [] ys r k it = ground arith
scan_user-hit (x ∷ xs) ys r k it =
    let e : k + suc (length xs) ≡ (k + 1) + length xs = omega arith in
    rw e (ground (arith, scan_user-hit xs ys r (k + 1) (some x)))

-- With a number below the first or beyond the last entry it runs to the end.
scan_user-miss :
    (xs : List ℕ) (idx : ℤ) (k : ℕ) (it : Option ℕ)
    → (suc (pos_part idx) ≤ k + neg_part idx) ⊎ (k + length xs + neg_part idx ≤ pos_part idx)
    → (scan_user xs idx k it).0 ≡ false
unfolding scan_user
scan_user-miss [] idx k it h = refl
scan_user-miss (x ∷ xs) idx k it h =
    let here : eqb_ℤ (pos k) idx ≡ false = ground arith in
    rw here (scan_user-miss xs idx (k + 1) (some x) (miss_next h))
  where
    miss_next :
        (suc (pos_part idx) ≤ k + neg_part idx)
          ⊎ (k + suc (length xs) + neg_part idx ≤ pos_part idx)
        → (suc (pos_part idx) ≤ k + 1 + neg_part idx)
          ⊎ (k + 1 + length xs + neg_part idx ≤ pos_part idx)
    miss_next (inl a) = inl (omega arith)
    miss_next (inr a) = inr (omega arith)

-- Nothing is removed if the first loop found nothing.
remove_found-miss :
    {C : Type 0} (lib : ListLib C) (u : ℕ) (m : Model C) (s : Bool × Option ℕ)
    → s.0 ≡ false
    → remove_found lib u s m ≡ some m
unfolding remove_found
remove_found-miss lib u m (found, none) h = refl
remove_found-miss lib u m (found, some r) h = rw h

scan_global-mem : (r : ℕ) (rs : List ℕ) → scan_global rs (some r) ≡ mem r rs
unfolding scan_global
scan_global-mem r [] = refl
scan_global-mem r (s ∷ rs) = ground (arith, scan_global-mem r rs)

module _ {C : Type 0} (lib : ListLib C) where
  open lib use {entries}

  drop_notification-unlinked :
      (m : Model C) (u r : ℕ) (x : User C)
      → m.users u ≡ some x
      → owner_of (m.reminders r) ≡ some u
      → drop_notification lib u r m ≡ some (unlinked lib m u x r m.events)
  unfolding drop_notification
  drop_notification-unlinked m u r x l o = elim (Option-cases (m.reminders r)) [
    | inl h ↦ absurd (ground arith)
    | inr (e, h) ↦ rw (l, h)
  ]

  module _ (m : Model C) (name : String) (u : ℕ) (x : User C) (v : IsValid lib m)
      (found : find_user_entry lib name m ≡ some (some u)) (live : m.users u ≡ some x) where
    module _ (xs ys : List ℕ) (r : ℕ) (at : entries x.notifications_list ≡ xs ++ r ∷ ys) where
      pub numbered-own : (mem r (queue lib m) ≡ true) × (owner_of (m.reminders r) ≡ some u)
      numbered-own = v.notes_queued u r (rw (live, at, mem-append r xs (r ∷ ys)) (ground arith))

      -- Number n + 1 of the user's reminders is the one that is unlinked.
      pub remove_user_notification-unlinked :
          remove_user_notification lib name (pos (suc (length xs))) m
          ≡ some (unlinked lib m u x r m.events)
      unfolding remove_user_notification remove_found
      remove_user_notification-unlinked =
          let hit : scan_user (xs ++ r ∷ ys) (pos (length xs)) 0 none ≡ (true, some r) =
            subst (λ k. scan_user (xs ++ r ∷ ys) (pos k) 0 none ≡ (true, some r)) (omega arith)
              (scan_user-hit xs ys r 0 none) in
          let (q, o) = numbered-own in
          rw (found, decrement_pos, live, at, hit, scan_global-mem r (queue lib m), q)
            (drop_notification-unlinked m u r x live o)

      pub numbered-notes : notes_of lib ((unlinked lib m u x r m.events).users u) ≡ xs ++ ys
      numbered-notes =
          let (q, o) = numbered-own in
          let apart = Distinct-append_cons r xs ys (rw (live, at) at (v.notes_distinct u)) in
          unlinked-notes lib {m = m} u x r m.events live q o v u
          ∙ rw (live, at) (erase-append_self r xs ys apart.0)

    -- Number n + 1 of the user's reminders leaves the user's list, the global list and the memory;
    -- the other users' lists stay, and the model stays valid.
    pub remove_user_notification-erased :
        (xs ys : List ℕ) (r : ℕ)
        → entries x.notifications_list ≡ xs ++ r ∷ ys
        → (m' : Model C) × (remove_user_notification lib name (pos (suc (length xs))) m ≡ some m')
          × IsValid lib m'
          × (notes_of lib (m'.users u) ≡ xs ++ ys)
          × (queue lib m' ≡ erase (queue lib m) r)
          × (m'.reminders r ≡ none)
          × ((w : ℕ) → w ≢ u → notes_of lib (m'.users w) ≡ notes_of lib (m.users w))
          × ((s : ℕ) → s ≢ r → m'.reminders s ≡ m.reminders s)
    remove_user_notification-erased xs ys r at =
        let (q, o) = numbered-own xs ys r at in
        (
          unlinked lib m u x r m.events,
          remove_user_notification-unlinked xs ys r at,
          unlinked-IsValid lib u x r m.events live q o v,
          numbered-notes xs ys r at,
          unlinked-queue lib u x r m.events live q o v,
          ground arith,
          λ w h. ground arith,
          λ s h. ground arith,
        )

    -- A number that is not one of the user's changes nothing.
    pub remove_user_notification-absent :
        (number : ℤ)
        → eqb_ℤ number int_min ≡ false
        → (number ≤ℤ pos 0) ⊎ (pos (suc (length (entries x.notifications_list))) ≤ℤ number)
        → remove_user_notification lib name number m ≡ some m
    unfolding remove_user_notification decrement
    remove_user_notification-absent number h out =
        rw (found, h, live)
          (remove_found-miss lib u m _ (
            scan_user-miss (entries x.notifications_list) (pred_ℤ number) 0 none
              (beyond number out)))
      where
        beyond :
            (n : ℤ)
            → (n ≤ℤ pos 0) ⊎ (pos (suc (length (entries x.notifications_list))) ≤ℤ n)
            → (suc (pos_part (pred_ℤ n)) ≤ 0 + neg_part (pred_ℤ n))
              ⊎ (0 + length (entries x.notifications_list) + neg_part (pred_ℤ n)
                  ≤ pos_part (pred_ℤ n))
        beyond (pos zero) out = inl (omega arith)
        beyond (pos (suc n)) (inl a) = absurd (omega arith)
        beyond (pos (suc n)) (inr a) = inr (omega arith)
        beyond (negsuc n) out = inl (omega arith)
