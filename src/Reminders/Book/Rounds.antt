-- ===== src/Reminders/Book/Rounds.antt =====
-- What a round of the timer makes of the pages.
use embedded_basecamp.Prelude.{
  ℕ, ◌≡◌, refl, Bool, true, not, some, List, [], ◌∷◌, ◌&&◌, keep, arith, mem, Bool-cases,
  Option-cases, inl, inr, ap, ◌∙◌,
}
use embedded_basecamp.Prelude.Memory.{Blocks}
use embedded_basecamp.Links.{ListLib}
use embedded_basecamp.Reminders.{Reminder, Model}
use embedded_basecamp.Reminders.Timer.{handle_timer_tick}
use embedded_basecamp.Reminders.Invariant.{queue, notes_of}
use embedded_basecamp.Reminders.Due.{is_due, after_tick}
use embedded_basecamp.Reminders.Countdown.{tick_Ticked, Positive-Ticked}
use embedded_basecamp.Reminders.Book.{second, turn, elapse, notes_in, book, pages_in}
use embedded_basecamp.Reminders.Book.Pages.{pages_in-elapse}
use embedded_basecamp.Reminders.Accounts.{Ticked-IsAccounted}
use embedded_basecamp.Reminders.Book.Calls.{Ready, Left}

-- A round, on the notes: those that are not due stay, with a second less.
elapse-keep :
    (R S : Blocks Reminder) (q : ℕ → Bool) (rs : List ℕ)
    → ((r : ℕ) → mem r rs ≡ true → S r ≡ after_tick (R r))
    → ((r : ℕ) → mem r rs ≡ true → q r ≡ not (is_due (R r)))
    → notes_in S (keep q rs) ≡ elapse (notes_in R rs)
elapse-keep R S q [] after kept = refl
elapse-keep R S q (r ∷ rs) after kept =
    let rest =
      elapse-keep R S q rs (λ s k. after s (ground arith)) (λ s k. kept s (ground arith)) in
    elim (Option-cases (R r)) [
      | inl h ↦ rw (kept r (ground arith), h, after r (ground arith) ∙ ap after_tick h, rest) refl
      | inr (e, h) ↦ elim (Bool-cases (is_due (some e))) [
        | inl d ↦ rw (kept r (ground arith), h, d, rest) refl
        | inr d ↦
            rw (kept r (ground arith), h, d, after r (ground arith) ∙ ap after_tick h, d, rest) refl
      ]
    ]

module _ {C : Type 0} (lib : ListLib C) where
  open lib use {entries}

  -- On a ready model a round of the timer does not fault, leaves a ready model, and takes a second
  -- off each note of the pages, those whose time is over off the pages.
  pub handle_timer_tick-Left :
      (m : Model C) → Ready lib m → Left lib m (handle_timer_tick lib m) (turn second (book lib m))
  handle_timer_tick-Left m ready =
      let (m', run, q, t) = tick_Ticked lib m ready.valid ready.positive in
      record {
        after = m';
        run = run;
        ready = record {
          valid = t.valid;
          positive = Positive-Ticked lib m ready.valid ready.positive m' q t;
        };
        pages =
            ap (λ us. pages_in lib m' us) t.same_users
            ∙ pages_in-elapse lib m m' t.same_names (entries m.users_list) (λ w. rw (t.notes w) (
                elapse-keep m.reminders m'.reminders
                  (λ r. not (mem r (queue lib m) && is_due (m.reminders r)))
                  (notes_of lib (m.users w))
                  (λ s h. ground (arith, t.memory s, ready.valid.notes_queued w s h))
                  (λ s h. ground (arith, ready.valid.notes_queued w s h))));
        accounts = Ticked-IsAccounted lib m m' q t;
        same_callback = t.same_callback;
      }
