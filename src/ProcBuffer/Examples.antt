-- ===== src/ProcBuffer/Examples.antt =====
-- A message of twelve bytes that is written and read in three pieces, and a start of the module.
use embedded_basecamp.Prelude.{ℕ, ◌+◌, ◌≡◌, refl, Bool, true, false, List, [], ◌∷◌}
use embedded_basecamp.Messenger.Procfs.{slice}
use embedded_basecamp.ProcBuffer.{
  Example, buffer_size, create_buffer, create_proc_example, cleanup_buffer, cleanup_proc_example,
  example_init, example_exit, example_write,
}
use embedded_basecamp.ProcBuffer.Reads.{read_all, least, asked, read_all-write}

abbrev unloaded : Example
unloaded = record {
  proc_buffer = λ k. 0;
  proc_msg_length = 0;
  proc_msg_read_pos = 0;
  buffer_set = false;
  dir_set = false;
  file_set = false;
}

abbrev with_entry : Example
with_entry = record unloaded { buffer_set = true; dir_set = true; file_set = true }

abbrev reads : List (ℕ × ℕ)
reads = (4, 0) ∷ (3, 0) ∷ (8, 0) ∷ []

read_all-write_example :
    read_all reads (example_write (λ k. 97 + k) 12 0 with_entry).1
    ≡ slice (λ k. 97 + k) (least (least buffer_size 12) (asked reads)) 0
read_all-write_example = read_all-write (λ k. 97 + k) 12 reads with_entry (refl, (refl, (refl, tt)))

-- What the module holds is given back by its exit, and by a start that fails.
start_and_exit :
    (kmalloc proc_mkdir proc_create : Bool)
    → example_exit (example_init kmalloc proc_mkdir proc_create (λ k. 0) unloaded).1 ≡ unloaded
unfolding example_init example_exit create_buffer create_proc_example cleanup_buffer
    cleanup_proc_example
start_and_exit true true true = refl
start_and_exit true true false = refl
start_and_exit true false proc_create = refl
start_and_exit false true true = refl
start_and_exit false true false = refl
start_and_exit false false proc_create = refl
