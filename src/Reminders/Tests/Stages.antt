-- ===== src/Reminders/Tests/Stages.antt =====
-- Sequences of calls that fault nowhere: what may be called when.
use Prim.Native.String.{String}
use embedded_basecamp.Prelude.{
  ℕ, ◌≡◌, refl, Bool, true, false, Option, none, some, List, [], ◌∷◌, if◌then◌else◌, arith, mem,
  Distinct, Option-cases, inl, inr,
}
use embedded_basecamp.Prelude.Int.{ℤ}
use embedded_basecamp.Prelude.Partial.{◌>>=◌}
use embedded_basecamp.Prelude.Memory.{is_some, update}
use embedded_basecamp.Links.{ListLib}
use embedded_basecamp.Reminders.{Model}
use embedded_basecamp.Reminders.Users.{find_user_entry, is_user_exists, add_new_user}
use embedded_basecamp.Reminders.Queries.{show_users_in, show_reminders_in, show_user_reminders}
use embedded_basecamp.Reminders.Invariant.{queue, IsValid}
use embedded_basecamp.Reminders.Names.{find_user_entry-Answers}
use embedded_basecamp.Reminders.Accounts.{IsAccounted}
use embedded_basecamp.Reminders.Book.{enroll, remind, strike, second}
use embedded_basecamp.Reminders.Book.Calls.{Ready, found_block}
use embedded_basecamp.Reminders.Book.Client.{Allowed}
use embedded_basecamp.Reminders.Tests.{
  Call, op, removal, users_shown, reminders_shown, user_shown, users_cleaned, reminders_cleaned,
}

-- No reminder is queued; reminders may be; reminders may be, and their users are freed.
pub data Stage : Type 0 where
  blank : Stage
  queued : Stage
  orphaned : Stage

-- Where a call is allowed, and what stage it leads to. A user is removed only while no reminder is
-- queued; when the users are freed while reminders may be, cleanup_reminders is the next call.
abbrev pub next : Stage → Call → Option Stage
next blank (op (enroll name)) = some blank
next blank (op (remind name title time)) = some queued
next blank (op (strike name number)) = some queued
next blank (op second) = some queued
next blank (removal name) = some blank
next blank users_shown = some blank
next blank reminders_shown = some blank
next blank (user_shown name) = some blank
next blank users_cleaned = some blank
next blank reminders_cleaned = some blank
next queued (op o) = some queued
next queued (removal name) = none
next queued users_shown = some queued
next queued reminders_shown = some queued
next queued (user_shown name) = some queued
next queued users_cleaned = some orphaned
next queued reminders_cleaned = none
next orphaned reminders_cleaned = some blank
next orphaned c = none

abbrev pub AllowedCall : Call → Type 0
AllowedCall (op o) = Allowed o
AllowedCall _ = Unit

abbrev pub AllAllowedCalls : List Call → Type 0
AllAllowedCalls [] = Unit
AllAllowedCalls (c ∷ cs) = AllowedCall c × AllAllowedCalls cs

-- The stage behind a sequence of calls.
abbrev pub stage_after : Stage → List Call → Option Stage
stage_after s [] = some s
stage_after s (c ∷ cs) = next s c >>= λ t. stage_after t cs

module _ {C : Type 0} (lib : ListLib C) where
  open lib use {entries}

  -- A ready model without lost blocks and without a callback.
  pub record IsQuiet (m : Model C) : Type 0 where
    pub ready : Ready lib m
    pub accounts : IsAccounted lib m
    pub off : m.callback_set ≡ false

  -- The users are freed, and the reminders wait for cleanup_reminders.
  pub record IsOrphaned (m : Model C) : Type 0 where
    pub no_entry : entries m.users_list ≡ []
    pub users_free : (u : ℕ) → m.users u ≡ none
    pub apart : Distinct (queue lib m)
    pub live : (r : ℕ) → mem r (queue lib m) ≡ true → is_some (m.reminders r) ≡ true
    pub held : (r : ℕ) → is_some (m.reminders r) ≡ true → mem r (queue lib m) ≡ true
    pub off : m.callback_set ≡ false

  abbrev pub At : Stage → Model C → Type 0
  At blank m = IsQuiet m × (queue lib m ≡ [])
  At queued m = IsQuiet m
  At orphaned m = IsOrphaned m

  pub queued_live :
      (m : Model C) (r : ℕ)
      → IsValid lib m
      → mem r (queue lib m) ≡ true
      → is_some (m.reminders r) ≡ true
  queued_live m r v q = let (u, o, n) = v.queue_owned r q in ground arith

  pub show_users_in-total :
      (us : List ℕ) (m : Model C)
      → ((u : ℕ) → mem u us ≡ true → is_some (m.users u) ≡ true)
      → (names : List String) × (show_users_in lib us m ≡ some names)
  unfolding show_users_in
  show_users_in-total [] m live = ([], refl)
  show_users_in-total (u ∷ us) m live = elim (Option-cases (m.users u)) [
    | inl h ↦ absurd (ground (arith, live u (ground arith)))
    | inr (x, h) ↦
        let (names, run) = show_users_in-total us m (λ w q. live w (ground arith)) in
        (x.user_name ∷ names, rw (h, run) refl)
  ]

  pub show_reminders_in-total :
      (rs : List ℕ) (m : Model C)
      → ((r : ℕ) → mem r rs ≡ true → is_some (m.reminders r) ≡ true)
      → (lines : List (String × ℤ)) × (show_reminders_in lib rs m ≡ some lines)
  unfolding show_reminders_in
  show_reminders_in-total [] m live = ([], refl)
  show_reminders_in-total (r ∷ rs) m live = elim (Option-cases (m.reminders r)) [
    | inl h ↦ absurd (ground (arith, live r (ground arith)))
    | inr (e, h) ↦
        let (lines, run) = show_reminders_in-total rs m (λ s q. live s (ground arith)) in
        ((e.notification_text, e.ellapse_time) ∷ lines, rw (h, run) refl)
  ]

  pub show_user_reminders-total :
      (name : String) (m : Model C)
      → IsValid lib m
      → (lines : List (String × ℤ)) × (show_user_reminders lib name m ≡ some lines)
  unfolding show_user_reminders
  show_user_reminders-total name m v =
      let (found, run, ans) = find_user_entry-Answers lib m name v in listed found run
    where
      listed :
          (found : Option ℕ)
          → find_user_entry lib name m ≡ some found
          → (lines : List (String × ℤ)) × (show_user_reminders lib name m ≡ some lines)
      listed none run = ([], rw run refl)
      listed (some u) run =
          let (x, here) = found_block lib m name u v run in
          let (lines, shown) =
            show_reminders_in-total (entries x.notifications_list) m
              (λ r q. queued_live m r v (v.notes_queued u r (rw here q)).0) in
          (lines, rw (run, here) shown)

  -- A new user leaves the queue.
  pub add_new_user-queue :
      (block : Option ℕ) (buffer : Bool) (name : String) (m m' : Model C)
      → add_new_user lib block buffer name m ≡ some m'
      → queue lib m' ≡ queue lib m
  unfolding add_new_user
  add_new_user-queue block buffer name m m' run = elim (Option-cases (is_user_exists lib name m)) [
    | inl h ↦ let e : none ≡ some m' = rw h at run in cc
    | inr (known, h) ↦ left block buffer known (rw h at run)
  ]
    where
      left :
          (block : Option ℕ) (buffer known : Bool)
          → (if known then some m else elim block [
            | none ↦ some m
            | some u ↦
                if buffer
                then some (record m {
                  users =
                      update m.users u (
                        some
                          (record { user_name = name; notifications_list = lib.init_list_head }));
                  users_list = lib.list_add_tail u m.users_list;
                })
                else some m
          ])
            ≡ some m'
          → queue lib m' ≡ queue lib m
      left block buffer true e = ground arith
      left none buffer false e = ground arith
      left (some u) true false e = ground arith
      left (some u) false false e = ground arith
