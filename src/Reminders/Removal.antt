-- ===== src/Reminders/Removal.antt =====
-- remove_user, and the reminders of the users that it frees.
use Prim.Native.String.{String}
use text.Mathlib.Text.{◌==◌ as str_eq}
use embedded_basecamp.Prelude.{
  ℕ, ◌≡◌, refl, Bool, true, false, not, ◌&&◌, Option, none, some, List, [], ◌∷◌, ◌++◌, arith, mem,
  keep, Distinct, ◌==◌, if◌then◌else◌, Bool-cases, Option-cases, inl, inr, ◌∙◌, sym, subst,
  append_assoc, mem-append, erase-append_self, Distinct-append_cons, erase-Distinct,
}
use embedded_basecamp.Prelude.Int.{decrement}
use embedded_basecamp.Prelude.Memory.{Blocks, is_some}
use embedded_basecamp.Prelude.Partial.{>>=-eq-some}
use embedded_basecamp.Links.{ListLib}
use embedded_basecamp.Reminders.{Reminder, User, Model}
use embedded_basecamp.Reminders.Users.{drop_user, remove_user_in, remove_user}
use embedded_basecamp.Reminders.Timer.{
  forget_in_owner, expire, handle_reminder_expired, tick_entry, tick_in, handle_timer_tick,
}
use embedded_basecamp.Reminders.Invariant.{retimed, queue, IsValid}
use embedded_basecamp.Reminders.Due.{is_due, CanTick, tick_entry-expire}

abbrev pub named : {C : Type 0} → String → Option (User C) → Bool
named name none = false
named name (some x) = str_eq x.user_name name

module _ {C : Type 0} (lib : ListLib C) where
  open lib use {entries, list_del, entries-list_del}

  -- What the loop of remove_user over `todo` makes of `m`.
  pub record Dropped (U : Blocks (User C)) (name : String) (todo : List ℕ) (m m' : Model C)
      : Type 0 where
    pub same_queue : queue lib m' ≡ queue lib m
    pub same_reminders : (r : ℕ) → m'.reminders r ≡ m.reminders r
    pub same_callback : m'.callback_set ≡ m.callback_set
    pub freed : (u : ℕ) → m'.users u ≡ (if mem u todo && named name (U u) then none else m.users u)

  module _ {U : Blocks (User C)} {name : String} {u : ℕ} {x : User C} {todo : List ℕ}
      {m m' : Model C} (h : U u ≡ some x) where
    Dropped-hit :
        str_eq x.user_name name ≡ true
        → Dropped U name todo (drop_user lib u m) m'
        → Dropped U name (u ∷ todo) m m'
    unfolding drop_user
    Dropped-hit k t = record {
      same_queue = t.same_queue;
      same_reminders = t.same_reminders;
      same_callback = t.same_callback;
      freed = λ w. elim (Bool-cases (u == w)) [
        | inl b ↦ let e : u ≡ w = ground arith in rw (← e, h, k) (ground (arith, t.freed u))
        | inr b ↦ ground (arith, t.freed w)
      ];
    }

    Dropped-miss :
        str_eq x.user_name name ≡ false
        → mem u todo ≡ false
        → Dropped U name todo m m'
        → Dropped U name (u ∷ todo) m m'
    Dropped-miss k f t = record {
      same_queue = t.same_queue;
      same_reminders = t.same_reminders;
      same_callback = t.same_callback;
      freed = λ w. elim (Bool-cases (u == w)) [
        | inl b ↦ let e : u ≡ w = ground arith in rw (← e, h, k) (ground (arith, t.freed u))
        | inr b ↦ ground (arith, t.freed w)
      ];
    }

  remove_user_in-Dropped :
      (U : Blocks (User C)) (name : String) (todo done : List ℕ) (m : Model C)
      → entries m.users_list ≡ done ++ todo
      → Distinct (done ++ todo)
      → ((u : ℕ) → mem u todo ≡ true → m.users u ≡ U u)
      → ((u : ℕ) → mem u todo ≡ true → is_some (U u) ≡ true)
      → (m' : Model C) × (remove_user_in lib todo name m ≡ some m')
        × (entries m'.users_list ≡ done ++ keep (λ u. not (named name (U u))) todo)
        × Dropped U name todo m m'
  unfolding remove_user_in drop_user
  remove_user_in-Dropped U name [] done m q d same live = (
    m,
    refl,
    q,
    record {
      same_queue = refl;
      same_reminders = λ r. refl;
      same_callback = refl;
      freed = λ u. refl;
    },
  )
  remove_user_in-Dropped U name (u ∷ todo) done m q d same live = elim (Option-cases (U u)) [
    | inl h ↦ absurd (ground (arith, live u (ground arith)))
    | inr (x, h) ↦
        let here : m.users u ≡ some x = same u (ground arith) ∙ h in
        let apart = Distinct-append_cons u done todo d in
        elim (Bool-cases (str_eq x.user_name name)) [
          | inl k ↦
              let gone = drop_user lib u m in
              let q1 : entries gone.users_list ≡ done ++ todo =
                entries-list_del u m.users_list
                  (rw (q, mem-append u done (u ∷ todo)) (ground arith))
                ∙ rw q (erase-append_self u done todo apart.0) in
              let (m', run, rest, t) =
                remove_user_in-Dropped U name todo done gone q1
                  (subst Distinct (erase-append_self u done todo apart.0)
                    (erase-Distinct u (done ++ u ∷ todo) d))
                  (λ w b. ground (arith, same w)) (λ w b. live w (ground arith)) in
              (m', rw (here, k) run, rw (h, k) rest, Dropped-hit h k t)
          | inr k ↦
              let (m', run, rest, t) =
                remove_user_in-Dropped U name todo (done ++ u ∷ []) m
                  (q ∙ sym (append_assoc done (u ∷ []) todo))
                  (rw (append_assoc done (u ∷ []) todo) d) (λ w b. same w (ground arith))
                  (λ w b. live w (ground arith)) in
              (
                m',
                rw (here, k) run,
                rw (h, k) (rest ∙ append_assoc done (u ∷ []) _),
                Dropped-miss h k apart.1 t,
              )
        ]
  ]

  -- On a valid model remove_user does not fault. It frees exactly the listed users of the name and
  -- takes them off the list; the queue and the reminders, those of the freed users too, stay.
  pub remove_user-Dropped :
      (m : Model C) (name : String)
      → IsValid lib m
      → (m' : Model C) × (remove_user lib name m ≡ some m')
        × (entries m'.users_list ≡ keep (λ u. not (named name (m.users u))) (entries m.users_list))
        × Dropped m.users name (entries m.users_list) m m'
  unfolding remove_user
  remove_user-Dropped m name v =
      remove_user_in-Dropped m.users name (entries m.users_list) [] m refl v.users_distinct
        (λ u h. refl) v.users_live

  -- A reminder that is due, of an owner whose block is free.
  pub record Dangling (m : Model C) (r : ℕ) : Type 0 where
    pub entry : Reminder
    pub owner : ℕ
    pub live : m.reminders r ≡ some entry
    pub owned : entry.belongs_to ≡ some owner
    pub gone : m.users owner ≡ none
    pub can : CanTick (some entry)
    pub due : is_due (some entry) ≡ true

  -- The body of the loop faults at such a reminder, and leaves it as it is at any other.
  tick_entry-Dangling : (m : Model C) (r : ℕ) → Dangling m r → tick_entry lib r m ≡ none
  unfolding expire forget_in_owner
  tick_entry-Dangling m r d =
      tick_entry-expire lib m r d.entry d.live d.can d.due ∙ rw (d.owned, d.gone)

  forget_in_owner-frame :
      (o : Option ℕ) (s w : ℕ) (m m' : Model C)
      → forget_in_owner lib o s m ≡ some m'
      → m.users w ≡ none
      → (m'.users w ≡ none) × ((r : ℕ) → m'.reminders r ≡ m.reminders r)
  unfolding forget_in_owner
  forget_in_owner-frame none s w m m' run gone = (ground arith, λ r. ground arith)
  forget_in_owner-frame (some u) s w m m' run gone = (ground arith, λ r. ground arith)

  expire-frame :
      (e : Reminder) (r s w : ℕ) (m m' : Model C)
      → (s == r) ≡ false
      → expire lib s e m ≡ some m'
      → m.users w ≡ none
      → (m'.users w ≡ none) × (m'.reminders r ≡ m.reminders r)
  unfolding expire
  expire-frame e r s w m m' ne run gone =
      let (m3, run3, last) = >>=-eq-some _ _ run in
      let (u3, r3) = forget_in_owner-frame e.belongs_to s w _ m3 run3 gone in ground (arith, r3 r)

  tick_entry-frame :
      (r s w : ℕ) (m m' : Model C)
      → (s == r) ≡ false
      → tick_entry lib s m ≡ some m'
      → m.users w ≡ none
      → (m'.users w ≡ none) × (m'.reminders r ≡ m.reminders r)
  unfolding tick_entry handle_reminder_expired
  tick_entry-frame r s w m m' ne run gone = elim (Option-cases (m.reminders s)) [
    | inl h ↦ absurd (ground arith)
    | inr (e, h) ↦ elim (Option-cases (decrement e.ellapse_time)) [
      | inl k ↦ absurd (ground arith)
      | inr (t, k) ↦
          ground (arith, expire-frame (record e { ellapse_time = t }) r s w (retimed m s e t) m' ne)
    ]
  ]

  tick_in-Dangling :
      (todo : List ℕ) (m : Model C) (r : ℕ)
      → mem r todo ≡ true
      → Dangling m r
      → tick_in lib todo m ≡ none
  unfolding tick_in
  tick_in-Dangling [] m r q d = cc
  tick_in-Dangling (s ∷ todo) m r q d = elim (Bool-cases (s == r)) [
    | inl h ↦ let e : s ≡ r = ground arith in rw (e, tick_entry-Dangling m r d)
    | inr h ↦ elim (Option-cases (tick_entry lib s m)) [
      | inl k ↦ rw k
      | inr (m', k) ↦
          let (gone, kept) = tick_entry-frame r s d.owner m m' h k d.gone in
          rw k (tick_in-Dangling todo m' r (ground arith) (moved m m' d gone kept))
    ]
  ]
    where
      moved :
          (m m' : Model C)
          → (d : Dangling m r) → m'.users d.owner ≡ none
          → m'.reminders r ≡ m.reminders r
          → Dangling m' r
      moved m m' d gone kept = record {
        entry = d.entry;
        owner = d.owner;
        live = kept ∙ d.live;
        owned = d.owned;
        gone = gone;
        can = d.can;
        due = d.due;
      }

  -- On a valid model, remove_user on the name of a listed user who owns a queued reminder that is due
  -- leaves a state in which the next round of the timer faults: it reads the freed owner.
  pub remove_user-tick_fault :
      (m : Model C) (name : String) (u r : ℕ) (e : Reminder)
      → IsValid lib m
      → mem u (entries m.users_list) ≡ true
      → named name (m.users u) ≡ true
      → mem r (queue lib m) ≡ true
      → m.reminders r ≡ some e
      → e.belongs_to ≡ some u
      → CanTick (some e)
      → is_due (some e) ≡ true
      → (m' : Model C) × (remove_user lib name m ≡ some m') × (handle_timer_tick lib m' ≡ none)
  unfolding handle_timer_tick
  remove_user-tick_fault m name u r e v listed is q l o can due =
      let (m', run, users, d) = remove_user-Dropped m name v in
      (
        m',
        run,
        tick_in-Dangling (queue lib m') m' r (rw d.same_queue q) (record {
          entry = e;
          owner = u;
          live = d.same_reminders r ∙ l;
          owned = o;
          gone = rw (d.freed u, listed, is);
          can = can;
          due = due;
        }),
      )
