-- ===== src/WorkQueue/Examples.antt =====
-- A module with two works, of which the second runs first.
use embedded_basecamp.Prelude.{
  ℕ, ◌+◌, ◌≡◌, refl, true, false, List, [], ◌∷◌, ◌++◌, ltb, if◌then◌else◌, arith,
}
use embedded_basecamp.WorkQueue.{
  Work, loading, loaded, removed, Module, unloaded, set, create_workqueue, queue_work, all_queued,
  my_wq_function, cleanup_module, Reach, here, next,
}
use embedded_basecamp.WorkQueue.Works.{times, Reach-removed}

abbrev first : Work
first = record { block = 40; id = 0 }

abbrev second : Work
second = record { block = 50; id = 1 }

abbrev queued : Module → Work → Module
queued s w = record s {
  place = loading (w.id + 1);
  queue = s.queue ++ w ∷ [];
  blocks = set s.blocks w.block true;
}

abbrev run_out : Module → Work → List Work → Module
run_out s w rest = record s {
  queue = rest;
  printed = s.printed ++ w.id ∷ [];
  blocks = set s.blocks w.block false;
}

abbrev created : Module
created = record unloaded { place = loading 0; my_wq = true }

abbrev both_queued : Module
both_queued = record (queued (queued created first) second) { place = loaded }

abbrev second_ran : Module
second_ran = run_out both_queued second (first ∷ [])

abbrev all_ran : Module
all_ran = run_out second_ran first []

abbrev gone : Module
gone = record all_ran { place = removed; my_wq = false }

gone-Reach : Reach 2 gone
gone-Reach =
    let one = next here (create_workqueue unloaded refl) in
    let two = next one (queue_work created 0 40 refl (omega arith) refl) in
    let three = next two (queue_work (queued created first) 1 50 refl (omega arith) refl) in
    let four = next three (all_queued (queued (queued created first) second) refl) in
    let five = next four (my_wq_function both_queued (first ∷ []) [] second (λ c. cc) refl) in
    let six = next five (my_wq_function second_ran [] [] first (λ c. cc) refl) in
    next six (cleanup_module all_ran refl refl)

Reach-removed_example :
    ((a : ℕ) → times a gone.printed ≡ (if ltb a 2 then 1 else 0))
    × ((b : ℕ) → gone.blocks b ≡ false)
    × (gone.queue ≡ [])
    × (gone.my_wq ≡ false)
Reach-removed_example = Reach-removed 2 gone gone-Reach refl
