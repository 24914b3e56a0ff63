-- ===== src/Messenger/Life.antt =====
-- The life of the messenger's module: chardev_init and chardev_exit of task6/module_main.c with
-- sysfs_handler_init and sysfs_handler_cleanup of task6/sysfs_handler.c. What the module holds of the
-- kernel's memory and names.
use embedded_basecamp.Prelude.{
  ◌≡◌, refl, ◌∙◌, ap, Option, none, some, Bool, true, false, if◌then◌else◌, Bool-cases, inl, inr,
  ◌⊎◌, if_true, if_false,
}
use embedded_basecamp.Prelude.Int.{ℤ, pos, ltb_ℤ}
use embedded_basecamp.Prelude.Partial.{◌>>=◌}
use embedded_basecamp.Messenger.Procfs.{
  ProcTree, no_tree, initialize_procfs_handler, cleanup_procfs_entries,
}

-- What is allocated or registered.
pub record Holdings : Type 0 where
  pub region : Bool
  pub cdev : Bool
  pub devclass : Bool
  pub device : Bool
  pub memory : Bool
  pub tree : ProcTree
  pub clear_class : Bool
  pub clear_file : Bool

abbrev pub no_holdings : Holdings
no_holdings = record {
  region = false;
  cdev = false;
  devclass = false;
  device = false;
  memory = false;
  tree = no_tree;
  clear_class = false;
  clear_file = false;
}

-- What the kernel answers: two codes, and whether the other calls succeed.
pub record Replies : Type 0 where
  pub alloc_chrdev_region : ℤ
  pub cdev_add : ℤ
  pub class_create : Bool
  pub kmalloc : Bool
  pub device_create : Bool
  pub proc_mkdir : Bool
  pub proc_create1 : Bool
  pub proc_create2 : Bool
  pub proc_create3 : Bool
  pub clear_class_create : Bool
  pub class_create_file : Bool

-- class_create_file on an error pointer is a fault. Nobody looks at the result.
unfoldable pub sysfs_handler_init : Replies → Holdings → Option Holdings
sysfs_handler_init a h =
    if a.clear_class_create
    then some (record h { clear_class = true; clear_file = a.class_create_file })
    else none

unfoldable pub sysfs_handler_cleanup : Holdings → Holdings
sysfs_handler_cleanup h = record h { clear_file = false; clear_class = false }

-- From class_create to sysfs_handler_init: the write of devnode through an error pointer is a fault.
unfoldable pub install : Replies → Holdings → Option Holdings
install a h =
    let r =
      initialize_procfs_handler a.proc_mkdir a.proc_create1 a.proc_create2 a.proc_create3 h.tree in
    if a.class_create
    then sysfs_handler_init a
        (record h { devclass = true; memory = a.kmalloc; device = a.device_create; tree = r.1 })
    else none

-- The result, and what is held then. On the path of errors no memory has been allocated yet.
unfoldable pub chardev_init : Replies → Holdings → Option (ℤ × Holdings)
chardev_init a h =
    let h1 = record h { region = true } in
    let done : Option (ℤ × Holdings) =
      install a (record h1 { cdev = true }) >>= λ h2. some (pos 0, h2) in
    let failed : Holdings → Holdings = λ z. record z { memory = false } in
    if ltb_ℤ a.alloc_chrdev_region (pos 0)
    then some (a.alloc_chrdev_region, failed h)
    else (if ltb_ℤ a.cdev_add (pos 0)
        then some (a.cdev_add, failed (record h1 { region = false }))
        else done)

unfoldable pub chardev_exit : Holdings → Holdings
chardev_exit h =
    let h1 = record h { device = false; devclass = false; cdev = false; region = false } in
    let h2 = sysfs_handler_cleanup h1 in
    record h2 { tree = cleanup_procfs_entries h2.tree; memory = false }

cleanup-install :
    (dir file1 file2 file3 : Bool)
    → cleanup_procfs_entries (initialize_procfs_handler dir file1 file2 file3 no_tree).1 ≡ no_tree
unfolding cleanup_procfs_entries initialize_procfs_handler
cleanup-install true true true true = refl
cleanup-install true true true false = refl
cleanup-install true true false file3 = refl
cleanup-install true false file2 file3 = refl
cleanup-install false file1 file2 file3 = refl

-- What a start that succeeds holds.
abbrev installed : Replies → Holdings
installed a = record {
  region = true;
  cdev = true;
  devclass = true;
  device = a.device_create;
  memory = a.kmalloc;
  tree =
      (initialize_procfs_handler a.proc_mkdir a.proc_create1 a.proc_create2 a.proc_create3
        no_tree).1;
  clear_class = true;
  clear_file = a.class_create_file;
}

-- As long as the kernel can create the two classes, the start of the module ends, whatever the other
-- calls answer. If it fails, its code is negative and nothing is held; if it succeeds, chardev_exit
-- gives everything back, the entries in /proc of a start that came only half way included.
pub chardev_init-exit :
    (a : Replies)
    → a.class_create ≡ true
    → a.clear_class_create ≡ true
    → (code : ℤ) × (h : Holdings) × (chardev_init a no_holdings ≡ some (code, h))
      × (((ltb_ℤ code (pos 0) ≡ true) × (h ≡ no_holdings))
          ⊎ ((code ≡ pos 0) × (chardev_exit h ≡ no_holdings)))
unfolding chardev_init chardev_exit install sysfs_handler_init sysfs_handler_cleanup
chardev_init-exit a class clear = elim (Bool-cases (ltb_ℤ a.alloc_chrdev_region (pos 0))) [
  | inl e ↦ (a.alloc_chrdev_region, no_holdings, if_true _ _ _ e, inl (e, refl))
  | inr e ↦ elim (Bool-cases (ltb_ℤ a.cdev_add (pos 0))) [
    | inl k ↦ (a.cdev_add, no_holdings, if_false _ _ _ e ∙ if_true _ _ _ k, inl (k, refl))
    | inr k ↦
        let with_tree : ProcTree → Holdings = λ z. record no_holdings { tree = z } in
        (
          pos 0,
          installed a,
          if_false _ _ _ e ∙ if_false _ _ _ k ∙ rw (class, clear) refl,
          inr (
            refl,
            ap with_tree
                (cleanup-install a.proc_mkdir a.proc_create1 a.proc_create2 a.proc_create3),
          ),
        )
  ]
]
