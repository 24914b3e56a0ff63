-- ===== src/Links.antt =====
-- The interface of the intrusive list (the copies of the Linux kernel's list.h: linked_list.h in
-- exercise4/linked_list, task8/linked_list and
-- final_task/userspace_app/lvgl_lib/application_view/linked_list). That library is a parameter: `C`
-- is the state of the ring behind one list head, and an entry is named by the address of the
-- structure that embeds its `list_head`, which is what `list_entry` gives back.
pub mod Sequence
use embedded_basecamp.Prelude.{
  ℕ, ◌≡◌, Bool, true, false, List, [], ◌∷◌, ◌++◌, mem, erase, insert_before,
}

pub record ListLib (C : Type 0) : Type 0 where
  -- INIT_LIST_HEAD, LIST_HEAD
  pub init_list_head : C
  -- list_add_tail(new, head)
  pub list_add_tail : ℕ → C → C
  -- list_add_tail(new, ptr) at an entry `ptr` of the list
  pub list_add_before : ℕ → ℕ → C → C
  -- list_del(entry)
  pub list_del : ℕ → C → C
  -- list_empty(head)
  pub list_empty : C → Bool
  -- the entries that the list_for_each family visits, in order
  pub entries : C → List ℕ
  pub entries-init_list_head : entries init_list_head ≡ []
  pub entries-list_add_tail :
      (n : ℕ) (c : C)
      → mem n (entries c) ≡ false
      → entries (list_add_tail n c) ≡ entries c ++ n ∷ []
  pub entries-list_add_before :
      (n p : ℕ) (c : C)
      → mem n (entries c) ≡ false
      → mem p (entries c) ≡ true
      → entries (list_add_before n p c) ≡ insert_before n p (entries c)
  pub entries-list_del :
      (p : ℕ) (c : C) → mem p (entries c) ≡ true → entries (list_del p c) ≡ erase (entries c) p
  pub list_empty_iff : (c : C) → entries c ≡ [] → list_empty c ≡ true
  pub list_empty_cons : (c : C) (x : ℕ) (xs : List ℕ) → entries c ≡ x ∷ xs → list_empty c ≡ false
