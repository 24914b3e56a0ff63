-- ===== src/SharedIrq/Examples.antt =====
-- A kernel that refuses the third handler.
use embedded_basecamp.Prelude.{ℕ, ◌≤◌, ◌<◌, ◌≡◌, ◌⊎◌, Bool, [], ltb}
use embedded_basecamp.Prelude.Int.{pos, negsuc}
use embedded_basecamp.SharedIrq.{max_shared, init_module, cleanup_module}
use embedded_basecamp.SharedIrq.Handlers.{dev_ids, accepted, wanted, init_module-cases}

abbrev two_only : ℕ → Bool
two_only dev_id = ltb dev_id 3

init_module-cases_example :
    let (ret, s) = init_module two_only (record { num = pos 20; handlers = [] }) in
    let k = accepted two_only (wanted (pos 20)) 0 in
    (wanted (pos 20) ≤ max_shared)
    × (((k ≡ wanted (pos 20))
          × (ret ≡ pos 0)
          × (s.handlers ≡ dev_ids k 0)
          × ((cleanup_module s).handlers ≡ []))
        ⊎ ((k < wanted (pos 20)) × (ret ≡ negsuc 0) × (s.handlers ≡ dev_ids k 0)))
init_module-cases_example = init_module-cases two_only (pos 20)
