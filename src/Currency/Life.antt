-- ===== src/Currency/Life.antt =====
-- The start and the end of the currency converter: init_procfs_handler and procfs_handler_deinit of
-- task5/part02/procfs_handler.c, sysfs_handler_init and sysfs_handler_cleanup of
-- task5/part02/sysfs_handler.c, and the two entry points of task5/part02/module_main.c.
use embedded_basecamp.Prelude.{
  ◌≡◌, ◌≢◌, refl, ◌⊎◌, inl, inr, Bool, true, false, Option, none, some, ◌&&◌, not, if◌then◌else◌,
  Bool-cases,
}
use embedded_basecamp.Prelude.Int.{ℤ, pos, negsuc, eqb_ℤ}
use embedded_basecamp.Prelude.Partial.{◌>>=◌}

-- What is in the global pointer proc_buffer.
pub data Pointer : Type 0 where
  null : Pointer
  held : Pointer
  freed : Pointer

-- The pointer, and what is registered with the kernel. A pointer that is NULL stands for nothing.
pub record Holdings : Type 0 where
  pub proc_buffer : Pointer
  pub proc_dir : Bool
  pub proc_file : Bool
  pub factor_class : Bool
  pub factor_file : Bool

abbrev pub no_holdings : Holdings
no_holdings = record {
  proc_buffer = null;
  proc_dir = false;
  proc_file = false;
  factor_class = false;
  factor_file = false;
}

-- What the kernel answers: whether a call succeeds, and the code of class_create_file.
pub record Replies : Type 0 where
  pub kmalloc : Bool
  pub proc_mkdir : Bool
  pub proc_create : Bool
  pub class_create : Bool
  pub class_create_file : ℤ

-- -ENOMEM
abbrev pub enomem : ℤ
enomem = negsuc 11

-- -EFAULT
abbrev pub efault : ℤ
efault = negsuc 13

unfoldable pub create_buffer : Replies → Holdings → ℤ × Holdings
create_buffer a h =
    if a.kmalloc
    then (pos 0, record h { proc_buffer = held })
    else (enomem, record h { proc_buffer = null })

-- The function gets a copy of the pointer, and it is the copy that it sets to NULL. A second kfree is
-- a fault.
unfoldable pub cleanup_buffer : Holdings → Option Holdings
cleanup_buffer h = elim h.proc_buffer [
  | null ↦ some h
  | held ↦ some (record h { proc_buffer = freed })
  | freed ↦ none
]

unfoldable pub crate_proc_entry : Replies → Holdings → ℤ × Holdings
crate_proc_entry a h =
    let h1 = record h { proc_dir = a.proc_mkdir } in
    let h2 = record h1 { proc_file = a.proc_create } in
    if a.proc_mkdir then (if a.proc_create then (pos 0, h2) else (efault, h2)) else (efault, h1)

unfoldable pub remove_procfs_entries : Holdings → Holdings
remove_procfs_entries h = record h { proc_file = false; proc_dir = false }

unfoldable pub procfs_handler_deinit : Holdings → Option Holdings
procfs_handler_deinit h = cleanup_buffer (remove_procfs_entries h)

-- The path of errors does what procfs_handler_deinit does.
unfoldable pub init_procfs_handler : Replies → Holdings → Option (ℤ × Holdings)
init_procfs_handler a h =
    let failed : ℤ → Holdings → Option (ℤ × Holdings) =
      λ err z. procfs_handler_deinit z >>= λ z'. some (err, z') in
    let (err1, h1) = create_buffer a h in
    let (err2, h2) = crate_proc_entry a h1 in
    if eqb_ℤ err1 (pos 0)
    then (if eqb_ℤ err2 (pos 0) then some (pos 0, h2) else failed err2 h2)
    else failed err1 h1

-- The error pointer of a failed class_create is only reported: class_create_file reads through it.
unfoldable pub sysfs_handler_init : Replies → Holdings → Option (ℤ × Holdings)
sysfs_handler_init a h =
    if a.class_create
    then some (
      a.class_create_file,
      record h { factor_class = true; factor_file = eqb_ℤ a.class_create_file (pos 0) },
    )
    else none

-- Both calls do nothing with a class that is NULL.
unfoldable pub sysfs_handler_cleanup : Holdings → Holdings
sysfs_handler_cleanup h = record h { factor_file = false; factor_class = false }

unfoldable pub currency_converter_exit : Holdings → Option Holdings
currency_converter_exit h = procfs_handler_deinit (sysfs_handler_cleanup h)

-- The path of errors does what currency_converter_exit does. The callbacks, which are set behind the
-- tests, are in Converter.
unfoldable pub currency_converter_init : Replies → Holdings → Option (ℤ × Holdings)
currency_converter_init a h =
    let failed : ℤ → Holdings → Option (ℤ × Holdings) =
      λ err z. currency_converter_exit z >>= λ z'. some (err, z') in
    do
      (err1, h1) ← init_procfs_handler a h
      if eqb_ℤ err1 (pos 0)
          then (do
            (err2, h2) ← sysfs_handler_init a h1
            if eqb_ℤ err2 (pos 0) then some (pos 0, h2) else failed err2 h2)
          else failed err1 h1

-- Nothing is registered, and no block is held.
pub record IsReleased (h : Holdings) : Type 0 where
  pub no_block : h.proc_buffer ≢ held
  pub no_entry : (h.proc_dir ≡ false) × (h.proc_file ≡ false)
  pub no_class : (h.factor_class ≡ false) × (h.factor_file ≡ false)

-- The start faults on these answers.
abbrev pub is_fatal : Replies → Bool
is_fatal a = a.kmalloc && not (a.proc_mkdir && a.proc_create && a.class_create)

-- What is to come of a start that is fatal, and of one that is not.
abbrev pub Outcome : Bool → Option (ℤ × Holdings) → Type 0
Outcome true answer = answer ≡ none
Outcome false none = ⊥
Outcome false (some (code, h)) =
    ((eqb_ℤ code (pos 0) ≡ false) × IsReleased h)
    ⊎ ((code ≡ pos 0) × ((h' : Holdings) × (currency_converter_exit h ≡ some h') × IsReleased h'))

no_holdings-IsReleased :
    (p : Pointer) → p ≢ held → IsReleased (record no_holdings { proc_buffer = p })
no_holdings-IsReleased p h = record {
  no_block = h;
  no_entry = (refl, refl);
  no_class = (refl, refl);
}

-- The start of the module, whatever the kernel answers. When the buffer is granted but a directory,
-- an entry or the class cannot be made, it faults: the buffer is freed twice, or the error of
-- class_create is read through. In every other case it ends: with a code that is not 0 and everything
-- given back, or with 0, and then the exit of the module gives everything back.
pub currency_converter_init-Outcome :
    (a : Replies) → Outcome (is_fatal a) (currency_converter_init a no_holdings)
unfolding currency_converter_init currency_converter_exit init_procfs_handler procfs_handler_deinit
    create_buffer cleanup_buffer crate_proc_entry remove_procfs_entries sysfs_handler_init
    sysfs_handler_cleanup
currency_converter_init-Outcome a =
    answered a.kmalloc a.proc_mkdir a.proc_create a.class_create a.class_create_file
  where
    replies : (block dir file class : Bool) → ℤ → Replies
    replies block dir file class code = record {
      kmalloc = block;
      proc_mkdir = dir;
      proc_create = file;
      class_create = class;
      class_create_file = code;
    }

    answered :
        (block dir file class : Bool) (code : ℤ)
        → Outcome
            (is_fatal (replies block dir file class code))
            (currency_converter_init (replies block dir file class code) no_holdings)
    answered true false file class code = refl
    answered true true false class code = refl
    answered true true true false code = refl
    answered false true true class code = inl (refl, no_holdings-IsReleased null (cc))
    answered false true false class code = inl (refl, no_holdings-IsReleased null (cc))
    answered false false file class code = inl (refl, no_holdings-IsReleased null (cc))
    answered true true true true code = elim (Bool-cases (eqb_ℤ code (pos 0))) [
      | inl h ↦ rw h (
          inr (
            refl,
            (record no_holdings { proc_buffer = freed }, refl, no_holdings-IsReleased freed (cc)),
          ))
      | inr h ↦ rw h (inl (h, no_holdings-IsReleased freed (cc)))
    ]
