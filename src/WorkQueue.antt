-- ===== src/WorkQueue.antt =====
-- The work queue of exercise15/mod_workqueue.c: init_module, cleanup_module and the works between
-- them, which run on their own and free themselves.
pub mod Works
mod Examples
use embedded_basecamp.Prelude.{
  ℕ, zero, suc, ◌+◌, ◌<◌, ◌≡◌, ◌≢◌, Bool, true, false, List, [], ◌∷◌, ◌++◌, ltb, ◌==◌,
  if◌then◌else◌,
}
use embedded_basecamp.Prelude.Int.{ℤ, negsuc}

-- A work: its block, and the id that is in it. The times are left out.
pub record Work : Type 0 where
  pub block : ℕ
  pub id : ℕ

-- Where the module is: before create_workqueue, before round n of the loop, behind a start that
-- answers an error, behind one that answers 0, behind cleanup_module, or behind a work that has run
-- when the module was gone.
pub data Place : Type 0 where
  starting : Place
  loading : ℕ → Place
  refused : (code : ℤ) → Place
  loaded : Place
  removed : Place
  crashed : Place

-- The blocks that are held, whether my_wq exists, its works, and the ids that were printed.
pub record Module : Type 0 where
  pub place : Place
  pub my_wq : Bool
  pub queue : List Work
  pub printed : List ℕ
  pub blocks : ℕ → Bool

abbrev pub unloaded : Module
unloaded = record { place = starting; my_wq = false; queue = []; printed = []; blocks = λ b. false }

abbrev pub set : (ℕ → Bool) → ℕ → Bool → ℕ → Bool
set f b v a = if a == b then v else f a

-- -EPERM
abbrev pub eperm : ℤ
eperm = negsuc 0

-- -ENOMEM
abbrev pub enomem : ℤ
enomem = negsuc 11

-- -EBADRQC
abbrev pub ebadrqc : ℤ
ebadrqc = negsuc 55

-- `works` is the parameter, which is not negative. One step of the module or of a work. The works of
-- a queue may run in any order, and while the module is loading.
pub data Step (works : ℕ) : Module → Module → Type 0 where
  create_workqueue :
      (s : Module)
      → s.place ≡ starting
      → Step works s (record s { place = loading 0; my_wq = true })
  no_workqueue :
      (s : Module) → s.place ≡ starting → Step works s (record s { place = refused ebadrqc })
  -- kmalloc answers the block b, which is free
  queue_work :
      (s : Module) (n b : ℕ)
      → s.place ≡ loading n
      → n < works
      → s.blocks b ≡ false
      → Step works s (record s {
        place = loading (n + 1);
        queue = s.queue ++ record { block = b; id = n } ∷ [];
        blocks = set s.blocks b true;
      })
  no_memory :
      (s : Module) (n : ℕ)
      → s.place ≡ loading n
      → n < works
      → Step works s (record s { place = refused enomem })
  not_queued :
      (s : Module) (n b : ℕ)
      → s.place ≡ loading n
      → n < works
      → s.blocks b ≡ false
      → Step works s (record s { place = refused eperm; blocks = set s.blocks b true })
  all_queued : (s : Module) → s.place ≡ loading works → Step works s (record s { place = loaded })
  -- my_wq_function, as long as its code is there
  my_wq_function :
      (s : Module) (before after : List Work) (w : Work)
      → ((code : ℤ) → s.place ≢ refused code)
      → s.queue ≡ before ++ w ∷ after
      → Step works s (record s {
        queue = before ++ after;
        printed = s.printed ++ w.id ∷ [];
        blocks = set s.blocks w.block false;
      })
  -- and when it is not
  runs_away :
      (s : Module) (before after : List Work) (w : Work) (code : ℤ)
      → s.place ≡ refused code
      → s.queue ≡ before ++ w ∷ after
      → Step works s (record s { place = crashed })
  -- flush_workqueue, which waits for the works, and destroy_workqueue
  cleanup_module :
      (s : Module)
      → s.place ≡ loaded
      → s.queue ≡ []
      → Step works s (record s { place = removed; my_wq = false })

pub data Reach (works : ℕ) : Module → Type 0 where
  here : Reach works unloaded
  next : {s t : Module} → Reach works s → Step works s t → Reach works t
