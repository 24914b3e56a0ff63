-- ===== src/Display/Device/Writes.antt =====
-- The character device: what a write leaves, and which kernel registrations stay.
use embedded_basecamp.Prelude.{
  ℕ, ◌+◌, ◌-◌, ◌*◌, ◌/◌, ◌%◌, ◌<◌, ◌≤◌, ◌≡◌, refl, Bool, true, false, some, List, [], ◌∷◌, ltb,
  ◌==◌, if◌then◌else◌, arith, Bool-cases, inl, inr, ap, ◌∙◌,
}
use embedded_basecamp.Prelude.Int.{ℤ, pos, ltb_ℤ}
use embedded_basecamp.Display.{Frame, Display}
use embedded_basecamp.Display.Screen.{lcd_update_screen}
use embedded_basecamp.Display.Screen.Rectangle.{shown}
use embedded_basecamp.Display.Device.{
  eio, efault, byte_of, overlay, copied, get_framebuffer_size, display_chardev_write, Call,
  alloc_chrdev_region, unregister_chrdev_region, init_display_chardevice,
}

overlay-bound : (source : ℕ → ℕ) (n k : ℕ) (f : Frame) → overlay source n f k < 256
overlay-bound source n k f = ground arith

-- The copy by bytes.
byte_of-copied :
    (source : ℕ → ℕ) (n k : ℕ) (f : Frame) → byte_of (copied source n f) k ≡ overlay source n f k
unfolding copied
byte_of-copied source n k f = word_bytes (overlay source n f) k (λ i. overlay-bound source n i f)
  where
    low : (a b : ℕ) → a < 256 → (a + 256 * b) % 256 ≡ a
    low a b h = omega arith

    high : (a b : ℕ) → a < 256 → b < 256 → (a + 256 * b) / 256 % 256 ≡ b
    high a b h l = omega arith

    word_bytes :
        (o : ℕ → ℕ) (k : ℕ)
        → ((i : ℕ) → o i < 256)
        → byte_of (λ i. o (2 * i) + 256 * o (2 * i + 1)) k ≡ o k
    word_bytes o k b = elim (Bool-cases (k % 2 == 0)) [
      | inl h ↦ let e : 2 * (k / 2) ≡ k = ground arith in rw h (low _ _ (b (2 * (k / 2))) ∙ ap o e)
      | inr h ↦
          let e : 2 * (k / 2) + 1 ≡ k = ground arith in
          rw h (high _ _ (b (2 * (k / 2))) (b (2 * (k / 2) + 1)) ∙ ap o e)
    ]

pub display_chardev_write-copied :
    (left : ℕ) (buffer : ℕ → ℕ) (len : ℕ) (d : Display) (f : Frame)
    → d.frame_buffer ≡ some f
    → len ≤ get_framebuffer_size
    → (f' : Frame) × (display_chardev_write left buffer len d
        ≡ some (
            if left == 0
            then (pos len, shown f' d)
            else (efault, record d { frame_buffer = some f' })))
      × ((k : ℕ) → byte_of f' k ≡ (if ltb k (len - left) then buffer k % 256 else byte_of f k))
unfolding display_chardev_write lcd_update_screen
display_chardev_write-copied left buffer len d f have fits =
    let short : ltb get_framebuffer_size len ≡ false = ground arith in
    elim (Bool-cases (left == 0)) [
      | inl h ↦ (
        copied buffer (len - left) f,
        rw (short, have, h),
        λ k. byte_of-copied buffer (len - left) k f,
      )
      | inr h ↦ (
        copied buffer (len - left) f,
        rw (short, have, h),
        λ k. byte_of-copied buffer (len - left) k f,
      )
    ]

-- A longer write returns -EIO and changes nothing.
pub display_chardev_write-long :
    (left : ℕ) (buffer : ℕ → ℕ) (len : ℕ) (d : Display)
    → get_framebuffer_size < len
    → display_chardev_write left buffer len d ≡ some (eio, d)
unfolding display_chardev_write
display_chardev_write-long left buffer len d long =
    let more : ltb get_framebuffer_size len ≡ true = ground arith in rw more

-- Whether a region is registered after the calls.
abbrev pub held : Bool → List Call → Bool
held r [] = r
held r (alloc_chrdev_region ∷ cs) = held true cs
held r (unregister_chrdev_region ∷ cs) = held false cs
held r (_ ∷ cs) = held r cs

-- init_display_chardevice returns 0 whatever the kernel answers, and after it no region is
-- registered, also when the device has been created on it.
pub init_display_chardevice-held :
    (allocated added : ℤ)
    → ((init_display_chardevice allocated added).0 ≡ pos 0)
      × (held false (init_display_chardevice allocated added).1 ≡ false)
unfolding init_display_chardevice
init_display_chardevice-held allocated added = elim (Bool-cases (ltb_ℤ allocated (pos 0))) [
  | inl h ↦ rw h (refl, refl)
  | inr h ↦ elim (Bool-cases (ltb_ℤ added (pos 0))) [
    | inl k ↦ rw (h, k) (refl, refl)
    | inr k ↦ rw (h, k) (refl, refl)
  ]
]
