-- ===== src/CharDevices/Devices.antt =====
-- The loops that create and destroy the devices of exercise11.
use embedded_basecamp.Prelude.{
  ℕ, zero, suc, ◌+◌, ◌-◌, ◌≡◌, refl, ap, ◌∙◌, sym, inl, inr, Bool, true, false, List, [], ◌∷◌, ◌++◌,
  ◌&&◌, not, if◌then◌else◌, keep, mem, mem-keep, drop, arith, Bool-cases, append-nil, append_assoc,
  if_true, if_false, keep_all, keep_ext, keep-keep,
}
use embedded_basecamp.Prelude.Int.{ℤ}
use embedded_basecamp.CharDevices.{
  Numbers, Replies, create_device, destroy_device, create_devices, destroy_devices, remove_devices,
}

-- The numbers of `n` minor numbers from `first` on.
abbrev pub numbers : Replies → ℤ → (first n : ℕ) → List ℕ
numbers a major first zero = []
numbers a major first (suc n) = a.mkdev major first ∷ numbers a major (first + 1) n

-- The devices that create_devices adds.
unfoldable pub made : Replies → Numbers → (first n : ℕ) → List ℕ
made a k first n = if k.class then keep a.device_create (numbers a k.major first n) else []

unfoldable pub with_devices : Numbers → List ℕ → Numbers
with_devices k ds = record k { devices = ds }

create_device-one :
    (a : Replies) (dev : ℕ) (k : Numbers)
    → create_device a dev k
      ≡ with_devices k (k.devices ++ (if k.class && a.device_create dev then dev ∷ [] else []))
unfolding create_device with_devices
create_device-one a dev k = elim (Bool-cases (k.class && a.device_create dev)) [
  | inl h ↦ if_true _ _ _ h ∙ ap (λ ds. with_devices k (k.devices ++ ds)) (sym (if_true _ _ _ h))
  | inr h ↦
      if_false _ _ _ h
      ∙ ap (with_devices k) (sym (append-nil k.devices))
      ∙ ap (λ ds. with_devices k (k.devices ++ ds)) (sym (if_false _ _ _ h))
]

joined :
    (c d : Bool) (dev : ℕ) (ds ns : List ℕ)
    → (ds ++ (if c && d then dev ∷ [] else [])) ++ (if c then ns else [])
      ≡ ds ++ (if c then (if d then dev ∷ ns else ns) else [])
joined true true dev ds ns = append_assoc ds (dev ∷ []) ns
joined true false dev ds ns = ap (λ z. z ++ ns) (append-nil ds)
joined false d dev ds ns = append-nil (ds ++ [])

pub create_devices-made :
    (a : Replies) (first n i : ℕ) (k : Numbers)
    → create_devices a first n i k ≡ with_devices k (k.devices ++ made a k (first + i) n)
unfolding create_devices create_device made with_devices
create_devices-made a first zero i k = elim (Bool-cases k.class) [
  | inl c ↦ rw (c, append-nil) refl
  | inr c ↦ rw (c, append-nil) refl
]
create_devices-made a first (suc n) i k =
    let next : first + (i + 1) ≡ first + i + 1 = omega arith in
    let dev = a.mkdev k.major (first + i) in
    let one = if k.class && a.device_create dev then dev ∷ [] else [] in
    ap (create_devices a first n (i + 1)) (create_device-one a dev k)
    ∙ create_devices-made a first n (i + 1) (with_devices k (k.devices ++ one))
    ∙ rw next (ap (with_devices k) (joined k.class (a.device_create dev) dev k.devices _))

gone : (ds ns : List ℕ) → List ℕ
gone ds ns = keep (λ d. not (mem d ns)) ds

destroy_devices-gone :
    (a : Replies) (first n i : ℕ) (k : Numbers)
    → destroy_devices a first n i k
      ≡ with_devices k (gone k.devices (numbers a k.major (first + i) n))
unfolding destroy_devices destroy_device gone with_devices
destroy_devices-gone a first zero i k = rw (keep_all (λ d. true) k.devices (λ x. refl)) refl
destroy_devices-gone a first (suc n) i k =
    let next : first + (i + 1) ≡ first + i + 1 = omega arith in
    let dev = a.mkdev k.major (first + i) in
    destroy_devices-gone a first n (i + 1) (destroy_device dev k)
    ∙ rw (next, keep-keep) (ap (with_devices k) (keep_ext _ _ k.devices (λ x h. ground arith)))

no_member : (xs : List ℕ) → ((x : ℕ) → mem x xs ≡ false) → xs ≡ []
no_member [] h = refl
no_member (x ∷ xs) h = absurd (let k = h x in ground arith)

gone-kept : (p : ℕ → Bool) (ns : List ℕ) → gone (keep p ns) ns ≡ []
unfolding gone
gone-kept p ns = no_member _ (λ x. rw (mem-keep x _ (keep p ns), mem-keep x p ns) (ground arith))

gone-made : (c : Bool) (p : ℕ → Bool) (ns : List ℕ) → gone (if c then keep p ns else []) ns ≡ []
unfolding gone
gone-made true p ns = gone-kept p ns
gone-made false p ns = refl

pub remove_devices-create :
    (a : Replies) (first n i : ℕ) (k : Numbers)
    → k.devices ≡ []
    → remove_devices a first n i (create_devices a first n i (record k { class = a.class_create }))
      ≡ record k { class = false; devices = [] }
unfolding remove_devices with_devices made
remove_devices-create a first n i k e =
    let ns = numbers a k.major (first + i) n in
    let off : Numbers → Numbers = λ z. record z { class = false } in
    let k1 : Numbers = record k { class = a.class_create } in
    let kept = if a.class_create then keep a.device_create ns else [] in
    ap (λ z. off (destroy_devices a first n i z)) (create_devices-made a first n i k1)
    ∙ ap off (destroy_devices-gone a first n i (with_devices k1 (k.devices ++ kept)))
    ∙ ap (λ ds. record k { class = false; devices = ds })
        (ap (λ ds. gone (ds ++ kept) ns) e ∙ gone-made a.class_create a.device_create ns)

-- The numbers without the first `m` ones.
pub drop-numbers :
    (a : Replies) (major : ℤ) (m first n : ℕ)
    → drop m (numbers a major first n) ≡ numbers a major (first + m) (n - m)
drop-numbers a major zero first n =
    let same : first + 0 ≡ first = omega arith in
    let all : n - 0 ≡ n = omega arith in rw (same, all) refl
drop-numbers a major (suc m) first zero =
    let nothing_left : 0 - suc m ≡ 0 = omega arith in rw nothing_left refl
drop-numbers a major (suc m) first (suc n) =
    let later : first + suc m ≡ first + 1 + m = omega arith in
    let fewer : suc n - suc m ≡ n - m = omega arith in
    rw (later, fewer) (drop-numbers a major m (first + 1) n)
