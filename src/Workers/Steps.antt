-- ===== src/Workers/Steps.antt =====
-- The interleavings of test_module with its threads: what is reached, what is freed, and the end.
use embedded_basecamp.Prelude.{ℕ, ◌≤◌, ◌<◌, ◌≡◌, ◌≢◌, refl, Bool, true, false, arith, subst}
use embedded_basecamp.Prelude.Int.{ℤ, fits_int}
use embedded_basecamp.Workers.{
  Task, Thread, waiting_for_start, failed, running, completed, Main, starting, waiting, cleaned,
  System, put, Step, start, start_failed, all_started, round, complete, wait, cleanup_items, Reach,
  here, next,
}

abbrev pub idle : Thread → Bool
idle waiting_for_start = true
idle failed = false
idle (running r) = false
idle completed = false

abbrev pub done : Thread → Bool
done waiting_for_start = false
done failed = false
done (running r) = false
done completed = true

abbrev pub in_range : Thread → Bool
in_range waiting_for_start = true
in_range failed = true
in_range (running r) = fits_int r
in_range completed = true

abbrev pub lost : Thread → Bool
lost waiting_for_start = false
lost failed = true
lost (running r) = false
lost completed = false

module _ (count : ℕ) (tasks : ℕ → Task) where
  -- What each place in test_module says of the threads.
  abbrev pub Agrees : Main → (ℕ → Thread) → Type 0
  Agrees (starting k) f =
      (k ≤ count)
      × ((i : ℕ) → k ≤ i → f i ≡ waiting_for_start)
      × ((i : ℕ) → i < k → idle (f i) ≡ false)
  Agrees (waiting k) f =
      (k ≤ count)
      × ((i : ℕ) → i < k → done (f i) ≡ true)
      × ((i : ℕ) → i < count → idle (f i) ≡ false)
  Agrees cleaned f = (i : ℕ) → i < count → done (f i) ≡ true

  -- A thread that goes on or ends agrees as the one before.
  Agrees-put :
      (m : Main) (f : ℕ → Thread) (k : ℕ) (r : ℤ) (t : Thread)
      → f k ≡ running r
      → idle t ≡ false
      → k < count
      → Agrees m f
      → Agrees m (put f k t)
  Agrees-put (starting n) f k r t h e b a =
      (a.0, λ i l. ground (arith, a.1 i l), λ i l. ground (arith, a.2 i l))
  Agrees-put (waiting n) f k r t h e b a =
      (a.0, λ i l. ground (arith, a.1 i l), λ i l. ground (arith, a.2 i l))
  Agrees-put cleaned f k r t h e b a = λ i l. absurd (ground (arith, a k b))

  Step-Agrees :
      {s t : System} → Step count tasks s t → Agrees s.main s.threads → Agrees t.main t.threads
  Step-Agrees (start s k h l) a =
      let b = subst (λ m. Agrees m s.threads) h a in
      (omega arith, λ i q. ground (arith, b.1 i), λ i q. ground (arith, b.2 i))
  Step-Agrees (start_failed s k h l) a =
      let b = subst (λ m. Agrees m s.threads) h a in
      (omega arith, λ i q. ground (arith, b.1 i), λ i q. ground (arith, b.2 i))
  Step-Agrees (all_started s h) a =
      let b = subst (λ m. Agrees m s.threads) h a in (omega arith, λ i q. absurd (omega arith), b.2)
  Step-Agrees (round s k r n l h p run) a = Agrees-put s.main s.threads k r (running n) h refl l a
  Step-Agrees (complete s k r l h p) a = Agrees-put s.main s.threads k r completed h refl l a
  Step-Agrees (wait s k h l e) a =
      let b = subst (λ m. Agrees m s.threads) h a in
      (omega arith, λ i q. ground (arith, b.1 i), b.2)
  Step-Agrees (cleanup_items s h) a = let b = subst (λ m. Agrees m s.threads) h a in b.1

  pub Reach-Agrees : {s : System} → Reach count tasks s → Agrees s.main s.threads
  Reach-Agrees here = (omega arith, λ i l. refl, λ i l. absurd (omega arith))
  Reach-Agrees (next r st) = Step-Agrees st (Reach-Agrees r)

  -- However the threads interleave: when one of them can still read its task or signal its
  -- completion, test_module has not freed them.
  pub Reach-not_cleaned :
      (s : System) (k : ℕ) (r : ℤ)
      → Reach count tasks s
      → k < count
      → s.threads k ≡ running r
      → s.main ≢ cleaned
  Reach-not_cleaned s k r reach l h e =
      let a : Agrees cleaned s.threads = subst (λ m. Agrees m s.threads) e (Reach-Agrees reach) in
      absurd (ground (arith, a k l))
