-- ===== src/CharDevices/Undo.antt =====
-- What a start of a module of exercise11 leaves, on words, and that the exit undoes it.
use embedded_basecamp.Prelude.{
  ℕ, ◌≡◌, refl, ap, ◌∙◌, sym, ◌⊎◌, inl, inr, Bool, true, false, none, some, List, [], ◌&&◌, ◌==◌,
  arith, Bool-cases,
}
use embedded_basecamp.Prelude.Int.{ℤ, pos, ltb_ℤ, eqb_ℤ}
use embedded_basecamp.CharDevices.{
  Numbers, Replies, unregister_chrdev_region, request_region, add_region, remove_region,
  add_devices, remove_devices,
}
use embedded_basecamp.CharDevices.Fixed as Fixed
use embedded_basecamp.CharDevices.Devices.{remove_devices-create}

-- A module holds nothing; its global `major` may be set.
abbrev pub nothing : ℤ → Numbers
nothing major = record { major = major; region = none; cdev = none; class = false; devices = [] }

-- What alloc_chrdev_region is documented to do: the number that it finds has the minor number that
-- it was asked for.
abbrev pub AllocatesFrom : ℕ → Replies → Type 0
AllocatesFrom first a =
    ltb_ℤ a.alloc_chrdev_region (pos 0) ≡ false
    → a.mkdev (a.major_of (a.alloc_dev first)) first ≡ a.alloc_dev first

-- The class is made, and a device for each number.
abbrev pub AllCreated : Replies → Type 0
AllCreated a = (a.class_create ≡ true) × ((dev : ℕ) → a.device_create dev ≡ true)

-- What a module that has its region holds.
pub record HasRegion (a : Replies) (first count : ℕ) (k : Numbers) : Type 0 where
  pub region : k.region ≡ some (a.mkdev k.major first, count)
  pub no_class : k.class ≡ false
  pub no_device : k.devices ≡ []

-- A module that holds nothing gets its region, or it gets a negative code and holds nothing.
unfoldable pub Started : Replies → (first count : ℕ) → ℤ × Numbers → Type 0
Started a first count (ret, k) =
    ((ltb_ℤ ret (pos 0) ≡ true) × (k ≡ nothing k.major))
    ⊎ ((ltb_ℤ ret (pos 0) ≡ false) × HasRegion a first count k)

pub add_region-Started :
    (a : Replies) (first count : ℕ) (major : ℤ)
    → AllocatesFrom first a
    → Started a first count (add_region a first count (nothing major))
unfolding add_region request_region unregister_chrdev_region Started
add_region-Started a first count major found = elim (Bool-cases (eqb_ℤ major (pos 0))) [
  | inl z ↦ elim (Bool-cases (ltb_ℤ a.alloc_chrdev_region (pos 0))) [
    | inl r ↦ rw (z, r) (inl (r, refl))
    | inr r ↦ elim (Bool-cases (ltb_ℤ a.cdev_add (pos 0))) [
      | inl c ↦
          let same : ((a.alloc_dev first == a.mkdev (a.major_of (a.alloc_dev first)) first)
                && (count == count))
              ≡ true =
            ground (arith, found r) in
          rw (z, r, c, same) (inl (c, refl))
      | inr c ↦
          rw (z, r, c)
            (inr (
              c,
              record {
                region = ap (λ d. some (d, count)) (sym (found r));
                no_class = refl;
                no_device = refl;
              },
            ))
    ]
  ]
  | inr z ↦ elim (Bool-cases (ltb_ℤ a.register_chrdev_region (pos 0))) [
    | inl r ↦ rw (z, r) (inl (r, refl))
    | inr r ↦ elim (Bool-cases (ltb_ℤ a.cdev_add (pos 0))) [
      | inl c ↦
          let same : ((a.mkdev major first == a.mkdev major first) && (count == count)) ≡ true =
            ground arith in
          rw (z, r, c, same) (inl (c, refl))
      | inr c ↦ rw (z, r, c) (inr (c, record { region = refl; no_class = refl; no_device = refl }))
    ]
  ]
]

remove_region-held :
    (a : Replies) (first count : ℕ) (k : Numbers)
    → k.region ≡ some (a.mkdev k.major first, count)
    → remove_region a first count (record k { class = false; devices = [] }) ≡ nothing k.major
unfolding remove_region unregister_chrdev_region
remove_region-held a first count k e =
    let same : ((a.mkdev k.major first == a.mkdev k.major first) && (count == count)) ≡ true =
      ground arith in
    rw (e, same) refl

own_major : (k : Numbers) (major : ℤ) → k ≡ nothing major → k ≡ nothing k.major
own_major k major e = e ∙ ap (λ z. nothing z.major) (sym e)

-- A start that has failed holds nothing; one that has not is undone by the exit.
abbrev pub Undone : (Numbers → Numbers) → ℤ × Numbers → Type 0
Undone exit (ret, k) =
    ((ltb_ℤ ret (pos 0) ≡ true) × (k ≡ nothing k.major))
    ⊎ ((ltb_ℤ ret (pos 0) ≡ false) × (exit k ≡ nothing (exit k).major))

-- The steps of the two modules with devices.
pub devices-Undone :
    (first count n : ℕ) (a : Replies) (major : ℤ)
    → AllocatesFrom first a
    → Undone
        (λ k. remove_region a first count (remove_devices a first n first k))
        (add_devices a first n first (add_region a first count (nothing major)))
unfolding add_devices remove_devices remove_region Started
devices-Undone first count n a major found =
    behind (add_region a first count (nothing major)) (add_region-Started a first count major found)
  where
    behind :
        (x : ℤ × Numbers)
        → Started a first count x
        → Undone
            (λ k. remove_region a first count (remove_devices a first n first k))
            (add_devices a first n first x)
    behind (ret, k) (inl (failed, e)) = rw failed (inl (failed, e))
    behind (ret, k) (inr (ok, h)) =
        let gives =
          ap (remove_region a first count) (remove_devices-create a first n first k h.no_device)
          ∙ remove_region-held a first count k h.region in
        rw ok (inr (ok, own_major _ k.major gives))

pub fixed-Undone :
    (a : Replies) (major : ℤ)
    → AllocatesFrom 0 a
    → Undone (Fixed.dev_exit a) (Fixed.dev_init a (nothing major))
unfolding Fixed.dev_init Fixed.dev_exit Started
fixed-Undone a major found =
    behind (add_region a 0 3 (nothing major)) (add_region-Started a 0 3 major found)
  where
    behind : (x : ℤ × Numbers) → Started a 0 3 x → Undone (remove_region a 0 3) x
    behind (ret, k) (inl (failed, e)) = inl (failed, e)
    behind (ret, k) (inr (ok, h)) =
        let bare : (c : Bool) (ds : List ℕ) → Numbers =
          λ c ds. record k { class = c; devices = ds } in
        let same : k ≡ bare false [] =
          ap (λ c. bare c k.devices) h.no_class ∙ ap (bare false) h.no_device in
        inr (
          ok,
          own_major _ k.major (ap (remove_region a 0 3) same ∙ remove_region-held a 0 3 k h.region),
        )
