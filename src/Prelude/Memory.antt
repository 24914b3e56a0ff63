-- ===== src/Prelude/Memory.antt =====
-- Memory blocks by address: `none` is an address that is free.
use embedded_basecamp.Prelude.{ℕ, Option, none, some, Bool, true, false, ◌==◌, if◌then◌else◌}

abbrev pub Blocks : Type 0 → Type 0
Blocks A = ℕ → Option A

module _ {A : Type 0} where
  abbrev pub update : Blocks A → ℕ → Option A → Blocks A
  update f k v j = if j == k then v else f j

  abbrev pub is_some : Option A → Bool
  is_some none = false
  is_some (some a) = true
