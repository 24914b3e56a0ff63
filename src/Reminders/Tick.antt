-- ===== src/Reminders/Tick.antt =====
-- One round of handle_timer_tick.
use embedded_basecamp.Prelude.{
  ℕ, ◌≡◌, refl, true, false, some, List, [], ◌∷◌, ◌++◌, ◌&&◌, not, arith, mem, keep, ◌==◌,
  if◌then◌else◌, Bool-cases, keep-append, Distinct-append_cons, inl, inr, ap, sym, ◌∙◌,
  erase-append_self, append_assoc, append-nil, mem-append, keep_ext, keep_all, keep-keep,
  erase-eq-keep,
}
use embedded_basecamp.Prelude.Int.{pred_ℤ}
use embedded_basecamp.Prelude.Memory.{Blocks}
use embedded_basecamp.Prelude.Partial.{◌>>=◌}
use embedded_basecamp.Links.{ListLib}
use embedded_basecamp.Reminders.{Reminder, User, Event, Model}
use embedded_basecamp.Reminders.Timer.{tick_entry, tick_in, handle_timer_tick}
use embedded_basecamp.Reminders.Invariant.{
  owner_of, name_of, queue, notes_of, IsValid, retimed, retimed-IsValid, unlinked, unlinked-queue,
  unlinked-notes, unlinked-IsValid,
}
use embedded_basecamp.Reminders.Due.{
  is_due, CanTick, after_tick, alert_of, alerts, live_of, owner_live, tick_entry-retimed,
  tick_entry-expire, expire-unlinked,
}

module _ {C : Type 0} (lib : ListLib C) where
  open lib use {entries}

  -- What a run of the loop over `todo` makes of `m`, with `R` the blocks of `todo` before it.
  pub record Ticked (R : Blocks Reminder) (todo : List ℕ) (m m' : Model C) : Type 0 where
    pub valid : IsValid lib m'
    pub memory : (r : ℕ) → m'.reminders r ≡ (if mem r todo then after_tick (R r) else m.reminders r)
    pub events : m'.events ≡ m.events ++ alerts R m.callback_set todo
    pub notes :
        (u : ℕ)
        → notes_of lib (m'.users u)
          ≡ keep (λ r. not (mem r todo && is_due (R r))) (notes_of lib (m.users u))
    pub same_users : entries m'.users_list ≡ entries m.users_list
    pub same_names : (u : ℕ) → name_of (m'.users u) ≡ name_of (m.users u)
    pub same_callback : m'.callback_set ≡ m.callback_set

  Ticked-append :
      {R : Blocks Reminder} {r : ℕ} {todo : List ℕ} {m m1 m' : Model C}
      → Ticked R (r ∷ []) m m1
      → Ticked R todo m1 m'
      → Ticked R (r ∷ todo) m m'
  Ticked-append {R} {r} {todo} {m} {m1} {m'} a b = record {
    valid = b.valid;
    memory = λ s. ground (arith, a.memory s, b.memory s);
    events =
        rw (b.events, a.events, a.same_callback, append_assoc)
          (ground (
            arith,
            append_assoc (alert_of m.callback_set r (R r)) [] (alerts R m.callback_set todo),
          ));
    notes = λ u.
        rw (b.notes u, a.notes u, keep-keep)
          (keep_ext (λ s. not (mem s (r ∷ []) && is_due (R s)) && not (mem s todo && is_due (R s)))
            (λ s. not (mem s (r ∷ todo) && is_due (R s))) (notes_of lib (m.users u))
            (λ s h. ground arith));
    same_users = b.same_users ∙ a.same_users;
    same_names = λ u. b.same_names u ∙ a.same_names u;
    same_callback = b.same_callback ∙ a.same_callback;
  }

  module _ (R : Blocks Reminder) (r : ℕ) (todo done : List ℕ) (m : Model C) (e : Reminder)
      (v : IsValid lib m) (q : queue lib m ≡ done ++ r ∷ todo) (live : m.reminders r ≡ some e)
      (same : R r ≡ some e) (can : CanTick (some e)) where
    queued : mem r (queue lib m) ≡ true
    queued = rw (q, mem-append r done (r ∷ todo)) (ground arith)

    abbrev next : Model C
    next = retimed m r e (pred_ℤ e.ellapse_time)

    step_later :
        is_due (some e) ≡ false → (tick_entry lib r m ≡ some next) × Ticked R (r ∷ []) m next
    step_later d = (
      tick_entry-retimed lib m r e live can d,
      record {
        valid = retimed-IsValid lib r e _ live v;
        memory = λ s. elim (Bool-cases (r == s)) [
          | inl h ↦ let k : r ≡ s = ground arith in rw (← k, same) (ground arith)
          | inr h ↦ ground arith
        ];
        events = rw (same, d) (sym (append-nil m.events));
        notes = λ u. sym (keep_all _ _ (λ s. ground arith));
        same_users = refl;
        same_names = λ w. refl;
        same_callback = refl;
      },
    )

    abbrev reported : List Event
    reported = m.events ++ alert_of m.callback_set r (some e)

    module _ (u : ℕ) (x : User C) (o : e.belongs_to ≡ some u) (l : m.users u ≡ some x) where
      next_owner : owner_of (next.reminders r) ≡ some u
      next_owner = ground arith

      gone-Ticked :
          is_due (some e) ≡ true
          → (queue lib (unlinked lib next u x r reported) ≡ done ++ todo)
            × Ticked R (r ∷ []) m (unlinked lib next u x r reported)
      gone-Ticked d =
          let v1 = retimed-IsValid lib r e (pred_ℤ e.ellapse_time) live v in
          let apart = Distinct-append_cons r done todo (rw q at v.queue_distinct) in
          (
            unlinked-queue lib {m = next} u x r reported l queued next_owner v1
                ∙ rw q (erase-append_self r done todo apart.0),
            record {
              valid = unlinked-IsValid lib {m = next} u x r reported l queued next_owner v1;
              memory = λ s. elim (Bool-cases (r == s)) [
                | inl h ↦ let k : r ≡ s = ground arith in rw (← k, same) (ground arith)
                | inr h ↦ ground arith
              ];
              events =
                  rw (same, d)
                    (ap (λ es. m.events ++ es)
                      (sym (append-nil (alert_of m.callback_set r (some e)))));
              notes = λ w.
                  unlinked-notes lib {m = next} u x r reported l queued next_owner v1 w
                  ∙ erase-eq-keep (λ s. not (mem s (r ∷ []) && is_due (R s))) r
                      (notes_of lib (m.users w)) (v.notes_distinct w) (rw (same, d) (ground arith))
                      (λ s h. ground arith);
              same_users = refl;
              same_names = λ w. ground arith;
              same_callback = refl;
            },
          )

    step_due :
        is_due (some e) ≡ true
        → (m1 : Model C) × (tick_entry lib r m ≡ some m1)
          × (queue lib m1 ≡ done ++ todo)
          × Ticked R (r ∷ []) m m1
    step_due d =
        let (u, x, o, l, n) = owner_live lib m r v queued in
        let bel : e.belongs_to ≡ some u = ap owner_of (sym live) ∙ o in
        let (q', t) = gone-Ticked u x bel l d in
        (
          unlinked lib next u x r reported,
          tick_entry-expire lib m r e live can d
              ∙ expire-unlinked lib next r u (record e { ellapse_time = pred_ℤ e.ellapse_time }) x
                  bel l n,
          q',
          t,
        )

    step :
        (m1 : Model C) × (tick_entry lib r m ≡ some m1)
        × (queue lib m1 ≡ (done ++ keep (λ s. not (is_due (R s))) (r ∷ [])) ++ todo)
        × Ticked R (r ∷ []) m m1
    step = elim (Bool-cases (is_due (some e))) [
      | inl d ↦ let (m1, run, q1, t) = step_due d in (m1, run, q1 ∙ rw (same, d, append-nil), t)
      | inr d ↦ let (run, t) = step_later d in (next, run, q ∙ rw (same, d, append_assoc), t)
    ]

  tick_in-Ticked :
      (R : Blocks Reminder) (todo done : List ℕ) (m : Model C)
      → IsValid lib m
      → queue lib m ≡ done ++ todo
      → ((r : ℕ) → mem r todo ≡ true → m.reminders r ≡ R r)
      → ((r : ℕ) → mem r todo ≡ true → CanTick (R r))
      → (m' : Model C) × (tick_in lib todo m ≡ some m')
        × (queue lib m' ≡ done ++ keep (λ r. not (is_due (R r))) todo)
        × Ticked R todo m m'
  unfolding tick_in
  tick_in-Ticked R [] done m v q same can = (
    m,
    refl,
    q,
    record {
      valid = v;
      memory = λ r. refl;
      events = sym (append-nil m.events);
      notes = λ u. sym (keep_all _ _ (λ x. refl));
      same_users = refl;
      same_names = λ w. refl;
      same_callback = refl;
    },
  )
  tick_in-Ticked R (r ∷ todo) done m v q same can =
      let (e, k, c) = live_of (R r) (can r (ground arith)) in
      let fresh : mem r todo ≡ false =
        (Distinct-append_cons r done todo (rw q at v.queue_distinct)).1 in
      let (m1, run, q1, a) = step R r todo done m e v q (same r (ground arith) ∙ k) k c in
      let (m', rest, q', b) =
        tick_in-Ticked R todo (done ++ keep (λ s. not (is_due (R s))) (r ∷ [])) m1 a.valid q1
          (λ s h. ground (arith, a.memory s, same s)) (λ s h. can s (ground arith)) in
      (
        m',
        ap (λ o. o >>= tick_in lib todo) run ∙ rest,
        q'
            ∙ append_assoc done _ _
            ∙ ap (λ xs. done ++ xs) (sym (keep-append (λ s. not (is_due (R s))) (r ∷ []) todo)),
        Ticked-append a b,
      )

  -- On a valid model whose queued times are above INT_MIN, handle_timer_tick does not fault; it
  -- leaves a valid model whose queue is the old one less the due reminders. These are reported in the
  -- order of the queue, freed, and out of their owners' lists; the others have one second less.
  pub handle_timer_tick-Ticked :
      (m : Model C)
      → IsValid lib m
      → ((r : ℕ) → mem r (queue lib m) ≡ true → CanTick (m.reminders r))
      → (m' : Model C) × (handle_timer_tick lib m ≡ some m')
        × (queue lib m' ≡ keep (λ r. not (is_due (m.reminders r))) (queue lib m))
        × Ticked m.reminders (queue lib m) m m'
  unfolding handle_timer_tick
  handle_timer_tick-Ticked m v can =
      tick_in-Ticked m.reminders (queue lib m) [] m v refl (λ r h. refl) can
