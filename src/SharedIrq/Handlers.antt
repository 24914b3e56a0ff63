-- ===== src/SharedIrq/Handlers.antt =====
-- What a start of exercise15/mod_ser.c leaves registered.
use embedded_basecamp.Prelude.{
  ℕ, zero, suc, ◌+◌, ◌==◌, ◌<◌, ◌≤◌, ◌≡◌, refl, ap, ◌∙◌, Bool, true, List, [], ◌∷◌, ◌++◌,
  if◌then◌else◌, arith, Bool-cases, inl, inr, ◌⊎◌, append-nil, append_assoc, ltb,
}
use embedded_basecamp.Prelude.Int.{ℤ, pos, negsuc, ltb_ℤ, pos_part}
use embedded_basecamp.SharedIrq.{max_shared, request_all, init_module, free_all, cleanup_module}

-- The dev_ids of `n` rounds from i on.
abbrev pub dev_ids : (n i : ℕ) → List ℕ
dev_ids zero i = []
dev_ids (suc n) i = (i + 1) ∷ dev_ids n (i + 1)

-- Of n rounds from i on, those before the first that is refused.
abbrev pub accepted : (ℕ → Bool) → (n i : ℕ) → ℕ
accepted request_irq zero i = 0
accepted request_irq (suc n) i =
    let rest = accepted request_irq n (i + 1) in if request_irq (i + 1) then suc rest else 0

request_all-accepted :
    (request_irq : ℕ → Bool) (n i : ℕ) (hs : List ℕ)
    → let k = accepted request_irq n i in
      request_all request_irq n i hs ≡ (if ltb k n then negsuc 0 else pos 0, hs ++ dev_ids k i)
unfolding request_all
request_all-accepted request_irq zero i hs = rw (append-nil) refl
request_all-accepted request_irq (suc n) i hs = elim (Bool-cases (request_irq (i + 1))) [
  | inl h ↦
      rw (h, request_all-accepted request_irq n (i + 1) (hs ++ (i + 1) ∷ []), append_assoc)
        (ground arith)
  | inr h ↦ rw (h, append-nil) (ground arith)
]

free_all-dev_ids : (n i : ℕ) → free_all n i (dev_ids n i) ≡ []
unfolding free_all
free_all-dev_ids zero i = refl
free_all-dev_ids (suc n) i =
    let same : (i + 1 == i + 1) ≡ true = ground arith in rw same (free_all-dev_ids n (i + 1))

accepted-le : (request_irq : ℕ → Bool) (n i : ℕ) → accepted request_irq n i ≤ n
accepted-le request_irq zero i = omega arith
accepted-le request_irq (suc n) i = ground (arith, accepted-le request_irq n (i + 1))

rounds-cases :
    (request_irq : ℕ → Bool) (n : ℕ)
    → let (ret, hs) = request_all request_irq n 0 [] in
      let k = accepted request_irq n 0 in
      ((k ≡ n) × (ret ≡ pos 0) × (hs ≡ dev_ids k 0) × (free_all n 0 hs ≡ []))
      ⊎ ((k < n) × (ret ≡ negsuc 0) × (hs ≡ dev_ids k 0))
rounds-cases request_irq n =
    let k = accepted request_irq n 0 in
    let run = request_all-accepted request_irq n 0 [] in
    elim (Bool-cases (ltb k n)) [
      | inl h ↦ rw (run, h) (inr (ground arith, refl, refl))
      | inr h ↦
          let all : k ≡ n = ground (arith, accepted-le request_irq n 0) in
          rw (run, h)
            (inl (all, refl, refl, ap (λ j. free_all n 0 (dev_ids j 0)) all ∙ free_all-dev_ids n 0))
    ]

-- The number of handlers that a start asks for.
abbrev pub wanted : ℤ → ℕ
wanted num = pos_part (if ltb_ℤ (pos max_shared) num then pos max_shared else num)

-- A start without handlers: it asks for the dev_ids from 1 on until one is refused, for 9 at most. If
-- none is refused it answers 0, and cleanup_module leaves no handler. If one is refused it answers
-- -1, and the handlers before it stay registered.
pub init_module-cases :
    (request_irq : ℕ → Bool) (num : ℤ)
    → let (ret, s) = init_module request_irq (record { num = num; handlers = [] }) in
      let k = accepted request_irq (wanted num) 0 in
      (wanted num ≤ max_shared)
      × (((k ≡ wanted num)
            × (ret ≡ pos 0)
            × (s.handlers ≡ dev_ids k 0)
            × ((cleanup_module s).handlers ≡ []))
          ⊎ ((k < wanted num) × (ret ≡ negsuc 0) × (s.handlers ≡ dev_ids k 0)))
unfolding init_module cleanup_module
init_module-cases request_irq num = (wanted_bound num, rounds-cases request_irq (wanted num))
  where
    wanted_bound : (num : ℤ) → wanted num ≤ max_shared
    wanted_bound (pos n) = ground arith
    wanted_bound (negsuc n) = ground arith
