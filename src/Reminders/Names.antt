-- ===== src/Reminders/Names.antt =====
-- The users by name: find_user_entry and add_new_user.
use Prim.Native.String.{String}
use text.Mathlib.Text.{◌==◌ as str_eq}
use text.Mathlib.TextEquality.{eq_iff}
use embedded_basecamp.Prelude.{
  ℕ, ◌≡◌, refl, Bool, true, false, Option, none, some, List, [], ◌∷◌, ◌++◌, arith, mem, ◌==◌,
  Bool-cases, Option-cases, ◌⊎◌, inl, inr, ap, ◌≢◌, ◌∙◌, sym, ◌||◌, mem-append, subst,
  Distinct-append_new,
}
use embedded_basecamp.Prelude.Memory.{is_some, update}
use embedded_basecamp.Links.{ListLib}
use embedded_basecamp.Reminders.{User, Model}
use embedded_basecamp.Reminders.Users.{find_user_in, find_user_entry, is_user_exists, add_new_user}
use embedded_basecamp.Reminders.Invariant.{notes_of, IsValid}

-- The block holds a user of the name.
abbrev pub HasName : {C : Type 0} → String → Option (User C) → Type 0
HasName name none = ⊥
HasName name (some x) = x.user_name ≡ name

-- What a search among `us` answers.
abbrev pub Answers : {C : Type 0} → Model C → String → List ℕ → Option ℕ → Type 0
Answers m name us none = (u : ℕ) → mem u us ≡ true → ¬ HasName name (m.users u)
Answers m name us (some u) = (mem u us ≡ true) × HasName name (m.users u)

Answers-cons :
    {C : Type 0} (m : Model C) (name : String) (u : ℕ) (x : User C) (us : List ℕ)
    → m.users u ≡ some x
    → str_eq name x.user_name ≡ false
    → (found : Option ℕ) → Answers m name us found
    → Answers m name (u ∷ us) found
Answers-cons m name u x us h k none ans = λ w q n. elim (Bool-cases (u == w)) [
  | inl e ↦
      let same : u ≡ w = ground arith in
      let is : x.user_name ≡ name = rw (← same, h) at n in
      let yes_eq : str_eq name x.user_name ≡ true = (eq_iff name x.user_name).1 (sym is) in
      cc (k, yes_eq)
  | inr e ↦ ans w (ground arith) n
]
Answers-cons m name u x us h k (some w) ans = (ground arith, ans.1)

-- No two listed users have one name.
abbrev pub UniqueNames : {C : Type 0} → Model C → List ℕ → Type 0
UniqueNames m us =
    (name : String) (u w : ℕ)
    → mem u us ≡ true
    → mem w us ≡ true
    → HasName name (m.users u)
    → HasName name (m.users w)
    → u ≡ w

module _ {C : Type 0} (lib : ListLib C) where
  open lib use {
    entries, init_list_head, list_add_tail, entries-list_add_tail, entries-init_list_head,
  }

  find_user_in-Answers :
      (m : Model C) (name : String) (us : List ℕ)
      → ((u : ℕ) → mem u us ≡ true → is_some (m.users u) ≡ true)
      → (found : Option ℕ) × (find_user_in lib us name m ≡ some found) × Answers m name us found
  unfolding find_user_in
  find_user_in-Answers m name [] live = (none, refl, λ u h. ground arith)
  find_user_in-Answers m name (u ∷ us) live = elim (Option-cases (m.users u)) [
    | inl h ↦ absurd (ground (arith, live u (ground arith)))
    | inr (x, h) ↦ elim (Bool-cases (str_eq name x.user_name)) [
      | inl k ↦ (some u, rw (h, k), (ground arith, rw h (sym ((eq_iff name x.user_name).0 k))))
      | inr k ↦
          let (found, run, ans) = find_user_in-Answers m name us (λ w q. live w (ground arith)) in
          (found, rw (h, k) run, Answers-cons m name u x us h k found ans)
    ]
  ]

  -- On a valid model find_user_entry does not fault: it gives a listed user of the name, or none if
  -- no listed user has it.
  pub find_user_entry-Answers :
      (m : Model C) (name : String)
      → IsValid lib m
      → (found : Option ℕ) × (find_user_entry lib name m ≡ some found)
        × Answers m name (entries m.users_list) found
  unfolding find_user_entry
  find_user_entry-Answers m name v = find_user_in-Answers m name (entries m.users_list) v.users_live

  abbrev pub enrolled : Model C → ℕ → String → Model C
  enrolled m u name = record m {
    users =
        update m.users u (some (record { user_name = name; notifications_list = init_list_head }));
    users_list = list_add_tail u m.users_list;
  }

  module _ (m : Model C) (name : String) (u : ℕ) (v : IsValid lib m)
      (fresh : m.users u ≡ none) where
    pub unlisted : mem u (entries m.users_list) ≡ false
    unlisted = elim (Bool-cases (mem u (entries m.users_list))) [
      | inl h ↦ absurd (ground (arith, v.users_live u h))
      | inr h ↦ h
    ]

    pub listed : entries (list_add_tail u m.users_list) ≡ entries m.users_list ++ u ∷ []
    listed = entries-list_add_tail u m.users_list unlisted

    mem-listed :
        (w : ℕ)
        → mem w (entries (list_add_tail u m.users_list))
          ≡ (mem w (entries m.users_list) || (u == w))
    mem-listed w = rw listed (ground (arith, mem-append w (entries m.users_list) (u ∷ [])))

    pub enrolled-notes :
        (w : ℕ) → notes_of lib ((enrolled m u name).users w) ≡ notes_of lib (m.users w)
    enrolled-notes w = elim (Bool-cases (w == u)) [
      | inl h ↦ let k : w ≡ u = ground arith in rw (h, k, fresh) entries-init_list_head
      | inr h ↦ rw h
    ]

    pub enrolled-IsValid : IsValid lib (enrolled m u name)
    enrolled-IsValid = record {
      users_live = λ w h. ground (arith, v.users_live w, mem-listed w);
      users_distinct =
          rw listed (Distinct-append_new u (entries m.users_list) unlisted v.users_distinct);
      queue_distinct = v.queue_distinct;
      queue_owned = λ r q. let (w, o, n) = v.queue_owned r q in (w, o, rw (enrolled-notes w) n);
      notes_distinct = λ w. rw (enrolled-notes w) (v.notes_distinct w);
      notes_queued = λ w r n. v.notes_queued w r (rw (enrolled-notes w) at n);
    }

    module _
        (absent : (w : ℕ) → mem w (entries m.users_list) ≡ true → ¬ HasName name (m.users w)) where
      enrolled-only :
          (w : ℕ)
          → mem w (entries (list_add_tail u m.users_list)) ≡ true
          → HasName name ((enrolled m u name).users w)
          → w ≡ u
      enrolled-only w q n = elim (Bool-cases (w == u)) [
        | inl h ↦ ground arith
        | inr h ↦ absurd (absent w (ground (arith, mem-listed w)) (rw h at n))
      ]

      enrolled_new_name :
          (other : String) (a b : ℕ)
          → mem b (entries (list_add_tail u m.users_list)) ≡ true
          → HasName other ((enrolled m u name).users a)
          → HasName other ((enrolled m u name).users b)
          → (a == u) ≡ true
          → b ≡ u
      enrolled_new_name other a b qb na nb e =
          let is : name ≡ other = rw e at na in enrolled-only b qb (rw (← is) at nb)

      enrolled-Unique :
          UniqueNames m (entries m.users_list)
          → UniqueNames (enrolled m u name) (entries (list_add_tail u m.users_list))
      enrolled-Unique unique other a b qa qb na nb = elim (Bool-cases (a == u)) [
        | inl h ↦ let e : a ≡ u = ground arith in e ∙ sym (enrolled_new_name other a b qb na nb h)
        | inr h ↦ elim (Bool-cases (b == u)) [
          | inl k ↦ let e : b ≡ u = ground arith in enrolled_new_name other b a qa nb na k ∙ sym e
          | inr k ↦
              unique other a b (ground (arith, mem-listed a)) (ground (arith, mem-listed b))
                (rw h at na) (rw k at nb)
        ]
      ]

      picked :
          (found : Option ℕ)
          → Answers (enrolled m u name) name (entries (list_add_tail u m.users_list)) found
          → found ≡ some u
      picked none ans = absurd (ans u (ground (arith, mem-listed u)) (ground arith))
      picked (some w) ans = ap some (enrolled-only w ans.0 ans.1)

      enrolled-found : find_user_entry lib name (enrolled m u name) ≡ some (some u)
      enrolled-found =
          let (found, run, ans) =
            find_user_entry-Answers (enrolled m u name) name enrolled-IsValid in
          run ∙ ap some (picked found ans)

  -- With the names of the listed users apart, a new name is enrolled: the user is listed last with no
  -- reminders and is found by the name from then on, the model stays valid, and the names stay apart.
  pub add_new_user-enrolled :
      (m : Model C) (name : String) (u : ℕ)
      → IsValid lib m
      → m.users u ≡ none
      → find_user_entry lib name m ≡ some none
      → UniqueNames m (entries m.users_list)
      → (m' : Model C) × (add_new_user lib (some u) true name m ≡ some m')
        × IsValid lib m'
        × (entries m'.users_list ≡ entries m.users_list ++ u ∷ [])
        × (find_user_entry lib name m' ≡ some (some u))
        × (notes_of lib (m'.users u) ≡ [])
        × UniqueNames m' (entries m'.users_list)
  unfolding add_new_user is_user_exists
  add_new_user-enrolled m name u v fresh new apart =
      let (found, run, ans) = find_user_entry-Answers m name v in
      let absent = subst (Answers m name (entries m.users_list)) (none_found found run) ans in
      (
        enrolled m u name,
        rw new,
        enrolled-IsValid m name u v fresh,
        listed m name u v fresh,
        enrolled-found m name u v fresh absent,
        rw (enrolled-notes m name u v fresh u, fresh),
        enrolled-Unique m name u v fresh absent apart,
      )
    where
      none_found : (found : Option ℕ) → find_user_entry lib name m ≡ some found → found ≡ none
      none_found found run = cc (run, new)

  -- A name that is taken, or a failed allocation, changes nothing.
  pub add_new_user-unchanged :
      (m : Model C) (name : String) (block : Option ℕ) (buffer : Bool) (found : Option ℕ)
      → find_user_entry lib name m ≡ some found
      → (found ≢ none) ⊎ ((block ≡ none) ⊎ (buffer ≡ false))
      → add_new_user lib block buffer name m ≡ some m
  unfolding add_new_user is_user_exists
  add_new_user-unchanged m name block buffer (some w) h k = rw h
  add_new_user-unchanged m name none buffer none h k = rw h
  add_new_user-unchanged m name (some u) buffer none h k = rw h (ground arith)
