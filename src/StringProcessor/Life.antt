-- ===== src/StringProcessor/Life.antt =====
-- The life of the module: string_processor_init and string_processor_exit of exercise10/part03/rw.c,
-- with init_sysfs_handler and sysfs_handler_cleanup of sysfs_handler.c. What the module holds of the
-- kernel's memory and names.
use embedded_basecamp.Prelude.{ℕ, Option, none, some, Bool, true, false, if◌then◌else◌}
use embedded_basecamp.Prelude.Int.{ℤ, pos, negsuc}
use embedded_basecamp.Prelude.Partial.{◌>>=◌}
use embedded_basecamp.StringProcessor.Convert.{enomem, init_converter_module}

-- What is allocated or registered.
pub record Held : Type 0 where
  pub buffer_in : Bool
  pub buffer_out : Bool
  pub processing : Bool
  pub proc_dir : Bool
  pub proc_file : Bool
  pub class : Bool
  pub class_file : Bool
  pub callback : Bool

abbrev pub nothing : Held
nothing = record {
  buffer_in = false;
  buffer_out = false;
  processing = false;
  proc_dir = false;
  proc_file = false;
  class = false;
  class_file = false;
  callback = false;
}

-- What the kernel answers: whether an allocation or a creation succeeds; `block` is the first byte of
-- the third allocation.
pub record Answers : Type 0 where
  pub kmalloc_in : Bool
  pub kmalloc_out : Bool
  pub proc_mkdir : Bool
  pub proc_create : Bool
  pub block : Option ℕ
  pub class_create : Bool
  pub class_create_file : Bool

-- -EFAULT
abbrev pub efault : ℤ
efault = negsuc 13

unfoldable pub remove_procfs_entries : Held → Held
remove_procfs_entries h = record h { proc_file = false; proc_dir = false }

unfoldable pub deinit_converter_module : Held → Held
deinit_converter_module h = record h { processing = false }

-- class_remove_file and class_destroy; both do nothing on a class that is NULL.
unfoldable pub sysfs_handler_cleanup : Held → Held
sysfs_handler_cleanup h = record h { class_file = false; class = false }

-- The registered file needs the class: class_create_file on an error pointer is a fault.
unfoldable pub init_sysfs_handler : Answers → Held → Option Held
init_sysfs_handler a h =
    if a.class_create
    then some (record h { class = true; class_file = a.class_create_file })
    else none

-- The calls of cleanup_buffer, remove_procfs_entries, deinit_converter_module and
-- sysfs_handler_cleanup, on the error path and in string_processor_exit.
unfoldable pub string_processor_exit : Held → Held
string_processor_exit h =
    let h1 = remove_procfs_entries h in
    let h2 = record h1 { buffer_in = false; buffer_out = false } in
    sysfs_handler_cleanup (deinit_converter_module h2)

-- The part behind the error tests; nobody looks at what init_converter_module returns.
unfoldable pub start : Answers → Held → Option Held
start a h = do
  err ← init_converter_module a.block
  h' ← init_sysfs_handler a (record h { processing = true })
  some (record h' { callback = true })

unfoldable pub string_processor_init : Answers → Held → Option (ℤ × Held)
string_processor_init a h =
    let h1 = record h { buffer_in = true } in
    let h2 = record h1 { buffer_out = true } in
    let h3 = record h2 { proc_dir = true } in
    let h4 = record h3 { proc_file = true } in
    if a.kmalloc_in
    then (if a.kmalloc_out
        then (if a.proc_mkdir
            then (if a.proc_create
                then (start a h4 >>= λ h5. some (pos 0, h5))
                else some (efault, string_processor_exit h3))
            else some (efault, string_processor_exit h2))
        else some (enomem, string_processor_exit h1))
    else some (enomem, string_processor_exit h)
