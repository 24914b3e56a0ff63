-- ===== src/Links/Sequence.antt =====
-- A concrete list library: the ring is the sequence of its entries. It shows that the laws of the
-- interface can be met, and the tests run on it.
use embedded_basecamp.Prelude.{
  ℕ, ◌≡◌, refl, Bool, true, false, List, [], ◌∷◌, ◌++◌, erase, insert_before, arith,
}
use embedded_basecamp.Links.{ListLib}

abbrev pub is_nil : List ℕ → Bool
is_nil [] = true
is_nil (x ∷ xs) = false

pub is_nil_nil : (c : List ℕ) → c ≡ [] → is_nil c ≡ true
is_nil_nil c e = ground arith

pub is_nil_cons : (c : List ℕ) (x : ℕ) (xs : List ℕ) → c ≡ x ∷ xs → is_nil c ≡ false
is_nil_cons c x xs e = ground arith

abbrev pub sequence_lib : ListLib (List ℕ)
sequence_lib = record {
  init_list_head = [];
  list_add_tail = λ n c. c ++ n ∷ [];
  list_add_before = insert_before;
  list_del = λ p c. erase c p;
  list_empty = is_nil;
  entries = λ c. c;
  entries-init_list_head = refl;
  entries-list_add_tail = λ n c h. refl;
  entries-list_add_before = λ n p c h k. refl;
  entries-list_del = λ p c h. refl;
  list_empty_iff = is_nil_nil;
  list_empty_cons = is_nil_cons;
}
