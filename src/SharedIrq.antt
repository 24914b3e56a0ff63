-- ===== src/SharedIrq.antt =====
-- The shared handlers of exercise15/mod_ser.c: init_module and cleanup_module.
mod Handlers
mod Examples
use embedded_basecamp.Prelude.{
  ℕ, zero, suc, ◌+◌, Bool, true, false, List, [], ◌∷◌, ◌++◌, erase, if◌then◌else◌,
}
use embedded_basecamp.Prelude.Int.{ℤ, pos, negsuc, ltb_ℤ, pos_part}

-- The parameter num, and the dev_ids for which the handler is registered on the interrupt.
pub record Serial : Type 0 where
  pub num : ℤ
  pub handlers : List ℕ

abbrev pub max_shared : ℕ
max_shared = 9

-- The loop from i on over the `n` rounds that are left. `request_irq` answers for a dev_id whether
-- the handler is registered. The name of a device has 9 characters, as i + 1 has at most two digits.
unfoldable pub request_all : (request_irq : ℕ → Bool) → (n i : ℕ) → List ℕ → ℤ × List ℕ
request_all request_irq zero i hs = (pos 0, hs)
request_all request_irq (suc n) i hs =
    let rest = request_all request_irq n (i + 1) (hs ++ (i + 1) ∷ []) in
    if request_irq (i + 1) then rest else (negsuc 0, hs)

-- There are no rounds for a negative number.
unfoldable pub init_module : (request_irq : ℕ → Bool) → Serial → ℤ × Serial
init_module request_irq s =
    let num = if ltb_ℤ (pos max_shared) s.num then pos max_shared else s.num in
    let (ret, hs) = request_all request_irq (pos_part num) 0 s.handlers in
    (ret, record { num = num; handlers = hs })

unfoldable pub free_all : (n i : ℕ) → List ℕ → List ℕ
free_all zero i hs = hs
free_all (suc n) i hs = free_all n (i + 1) (erase hs (i + 1))

unfoldable pub cleanup_module : Serial → Serial
cleanup_module s = record s { handlers = free_all (pos_part s.num) 0 s.handlers }
