-- ===== src/CharDevices/Life.antt =====
-- What the modules of exercise11 hold behind their start and behind their exit.
use embedded_basecamp.Prelude.{
  ℕ, ltb, ◌+◌, ◌<◌, ◌^◌, ◌%◌, Option, ◌-◌, ◌≡◌, ap, ◌∙◌, ◌⊎◌, inl, inr, true, false, some, drop,
  arith, Bool-cases, if_true, keep_all,
}
use embedded_basecamp.Prelude.Int.{ℤ, pos, ltb_ℤ}
use embedded_basecamp.CharDevices.{Numbers, Replies, add_region, add_devices}
use embedded_basecamp.CharDevices.Fixed as Fixed
use embedded_basecamp.CharDevices.Dynamic as Dynamic
use embedded_basecamp.CharDevices.Ranged as Ranged
use embedded_basecamp.CharDevices.Devices.{
  numbers, made, with_devices, create_devices-made, drop-numbers,
}
use embedded_basecamp.CharDevices.Ranged.{word, range_rounds}
use embedded_basecamp.CharDevices.Words.{
  wrapping, SumsFit, word_small, dev_init-words, dev_exit-words, SumsFit-pos, numbers-wrapping,
}
use embedded_basecamp.CharDevices.Undo.{
  nothing, AllocatesFrom, AllCreated, Started, add_region-Started, Undone, devices-Undone,
  fixed-Undone,
}

-- A start that ends without a fault is undone by an exit that does.
abbrev pub UndoneBy : (Numbers → Option Numbers) → Option (ℤ × Numbers) → Type 0
UndoneBy exit start =
    (x : ℤ × Numbers) × (start ≡ some x)
    × (((ltb_ℤ x.0 (pos 0) ≡ true) × (x.1 ≡ nothing x.1.major))
        ⊎ ((ltb_ℤ x.0 (pos 0) ≡ false)
            × ((k : Numbers) × (exit x.1 ≡ some k) × (k ≡ nothing k.major))))

AllocatesFrom-wrapping :
    (a : Replies) (low : ℤ) → AllocatesFrom (word low) a → AllocatesFrom (word low) (wrapping a)
AllocatesFrom-wrapping a low found = rw (word_small low) found

ranged-UndoneBy :
    (low high : ℤ) (a : Replies) (major : ℤ)
    → SumsFit low (range_rounds low high) low
    → AllocatesFrom (word low) a
    → UndoneBy (Ranged.dev_exit low high a) (Ranged.dev_init low high a (nothing major))
ranged-UndoneBy low high a major fit found =
    let x =
      add_devices (wrapping a) (word low) (range_rounds low high) (word low)
        (add_region (wrapping a) (word low) (word high) (nothing major)) in
    (
      x,
      dev_init-words low high a (nothing major) fit,
      elim (devices-Undone (word low) (word high) (range_rounds low high) (wrapping a) major
          (AllocatesFrom-wrapping a low found)) [
            | inl failed ↦ inl failed
            | inr (ok, e) ↦ inr (ok, (_, dev_exit-words low high a x.1 fit, e))
          ],
    )

-- If the class can be created and alloc_chrdev_region does as documented: whatever else the kernel
-- answers, whatever `major` is, and for every minimum and maximum of part02/dyndev.c, negative ones
-- too, with which no sum of minor numbers overflows an int, a start of fixdev.c, of part01/dyndev.c or
-- of part02/dyndev.c on nothing does not fault; if it fails, it leaves no region, cdev, class or
-- device, and if it does not, its exit does not fault and leaves none.
pub dev_init-exit :
    (devices_minor_min devices_minor_max : ℤ) (a : Replies) (major : ℤ)
    → a.class_create ≡ true
    → SumsFit devices_minor_min (range_rounds devices_minor_min devices_minor_max) devices_minor_min
    → AllocatesFrom 0 a
    → AllocatesFrom (word devices_minor_min) a
    → Undone (Fixed.dev_exit a) (Fixed.dev_init a (nothing major))
      × Undone (Dynamic.dev_exit a) (Dynamic.dev_init a (nothing major))
      × UndoneBy
          (Ranged.dev_exit devices_minor_min devices_minor_max a)
          (Ranged.dev_init devices_minor_min devices_minor_max a (nothing major))
unfolding Dynamic.dev_init Dynamic.dev_exit
dev_init-exit low high a major class fit found0 found = (
  fixed-Undone a major found0,
  devices-Undone 0 3 3 a major found0,
  ranged-UndoneBy low high a major fit found,
)

placed :
    (min max : ℕ) (a : Replies) (major : ℤ)
    → AllocatesFrom min a
    → AllCreated a
    → let (ret, k) = add_devices a min (max - min) min (add_region a min max (nothing major)) in
      ltb_ℤ ret (pos 0) ≡ false
      → (k.region ≡ some (a.mkdev k.major min, max))
        × (k.devices ≡ drop min (numbers a k.major min max))
unfolding add_devices Started made with_devices
placed min max a major found (class, all) =
    behind (add_region a min max (nothing major)) (add_region-Started a min max major found)
  where
    behind :
        (x : ℤ × Numbers)
        → Started a min max x
        → let (ret, k) = add_devices a min (max - min) min x in
          ltb_ℤ ret (pos 0) ≡ false
          → (k.region ≡ some (a.mkdev k.major min, max))
            × (k.devices ≡ drop min (numbers a k.major min max))
    behind (ret, k) (inl (failed, e)) ok = absurd (let no = rw failed at ok in ground arith)
    behind (ret, k) (inr (ok, h)) ok' =
        rw (ok, create_devices-made a min (max - min) min (record k { class = a.class_create }))
          (
            h.region,
            rw (h.no_device, drop-numbers a k.major min min max)
                (if_true _ _ _ class ∙ keep_all a.device_create _ all),
          )

-- For a minimum and a maximum of part02/dyndev.c that are not negative and whose sum is an int, if
-- alloc_chrdev_region does as documented, and the class and all devices are created: a start on
-- nothing does not fault, and if it does not fail, its region has `devices_minor_max` numbers from
-- `devices_minor_min` on, and its devices are those numbers without the first `devices_minor_min`
-- ones.
pub dev_init-devices :
    (devices_minor_min devices_minor_max : ℕ) (a : Replies) (major : ℤ)
    → devices_minor_min + devices_minor_max < 2 ^ 31
    → AllocatesFrom devices_minor_min a
    → AllCreated a
    → (ret : ℤ) × (k : Numbers) × (Ranged.dev_init
          (pos devices_minor_min)
          (pos devices_minor_max)
          a
          (nothing major)
        ≡ some (ret, k))
      × (ltb_ℤ ret (pos 0) ≡ false
          → (k.region ≡ some (a.mkdev k.major devices_minor_min, devices_minor_max))
            × (k.devices
                ≡ drop devices_minor_min (numbers a k.major devices_minor_min devices_minor_max)))
dev_init-devices min max a major small found created =
    let low : word (pos min) ≡ min = omega arith in
    let high : word (pos max) ≡ max = omega arith in
    let all : range_rounds (pos min) (pos max) ≡ max - min = omega arith in
    let same : min % 2 ^ 32 ≡ min = omega arith in
    let fit : SumsFit (pos min) (range_rounds (pos min) (pos max)) (pos min) =
      elim (Bool-cases (ltb min max)) [
        | inl h ↦ SumsFit-pos min (range_rounds (pos min) (pos max)) min (ground arith)
        | inr h ↦
            let zero_rounds : range_rounds (pos min) (pos max) ≡ 0 = ground arith in
            rw zero_rounds tt
      ] in
    let found' : AllocatesFrom min (wrapping a) = rw same found in
    let start =
      add_devices (wrapping a) min (max - min) min
        (add_region (wrapping a) min max (nothing major)) in
    let run = dev_init-words (pos min) (pos max) a (nothing major) fit in
    (
      start.0,
      start.1,
      rw (low, high, all) at run,
      λ ok.
          let (region, devices) = placed min max (wrapping a) major found' created ok in
          (
            region ∙ ap (λ w. some (a.mkdev start.1.major w, max)) same,
            devices ∙ ap (drop min) (numbers-wrapping a _ min max (omega arith)),
          ),
    )
