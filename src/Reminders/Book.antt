-- ===== src/Reminders/Book.antt =====
-- The abstract view of the reminders model, without addresses and without the global list: a page
-- for each user in the order of enrolment, with the reminders in the order in which they were made.
pub mod Pages
pub mod Calls
pub mod Strikes
pub mod Rounds
pub mod Client
pub mod Release
mod Examples
use Prim.Native.String.{String}
use text.Mathlib.Text.{◌==◌ as str_eq}
use embedded_basecamp.Prelude.{
  ℕ, zero, suc, Bool, true, false, Option, none, some, List, [], ◌∷◌, ◌++◌, ◌||◌, if◌then◌else◌,
  map,
}
use embedded_basecamp.Prelude.Int.{ℤ, pos, negsuc, eqb_ℤ, pred_ℤ}
use embedded_basecamp.Prelude.Memory.{Blocks}
use embedded_basecamp.Links.{ListLib}
use embedded_basecamp.Reminders.{Reminder, User, Model}
use embedded_basecamp.Reminders.Invariant.{notes_of, name_of}

pub record Note : Type 0 where
  pub text : String
  pub time : ℤ

pub record Page : Type 0 where
  pub owner : String
  pub notes : List Note

abbrev pub known : String → List Page → Bool
known name [] = false
known name (p ∷ ps) = str_eq name p.owner || known name ps

-- Changes the notes of the first page of the name.
abbrev pub amend : String → (List Note → List Note) → List Page → List Page
amend name f [] = []
amend name f (p ∷ ps) =
    if str_eq name p.owner then record p { notes = f p.notes } ∷ ps else p ∷ amend name f ps

abbrev pub remove_nth : ℕ → List Note → List Note
remove_nth k [] = []
remove_nth zero (n ∷ ns) = ns
remove_nth (suc k) (n ∷ ns) = n ∷ remove_nth k ns

-- Without note number `number`, counted from 1.
abbrev pub without : ℤ → List Note → List Note
without (pos zero) ns = ns
without (pos (suc k)) ns = remove_nth k ns
without (negsuc n) ns = ns

-- A second passes: the notes whose time is over are gone.
abbrev pub elapse : List Note → List Note
elapse [] = []
elapse (n ∷ ns) =
    if eqb_ℤ (pred_ℤ n.time) (pos 0)
    then elapse ns
    else record n { time = pred_ℤ n.time } ∷ elapse ns

abbrev pub elapse_all : List Page → List Page
elapse_all [] = []
elapse_all (p ∷ ps) = record p { notes = elapse p.notes } ∷ elapse_all ps

-- The calls that a program makes of the model.
pub data Op : Type 0 where
  enroll : String → Op
  remind : String → String → ℤ → Op
  strike : String → ℤ → Op
  second : Op

-- A call, on the pages.
abbrev pub turn : Op → List Page → List Page
turn (enroll name) ps = if known name ps then ps else ps ++ record { owner = name; notes = [] } ∷ []
turn (remind name title time) ps =
    amend name (λ ns. ns ++ record { text = title; time = time } ∷ []) ps
turn (strike name number) ps = amend name (without number) ps
turn second ps = elapse_all ps

-- A call that needs memory and is refused it changes nothing.
abbrev pub turn_if : Bool → Op → List Page → List Page
turn_if granted op ps = if granted then turn op ps else ps

abbrev pub turns : List Op → List Bool → List Page → List Page
turns [] bs ps = ps
turns (op ∷ ops) [] ps = ps
turns (op ∷ ops) (b ∷ bs) ps = turns ops bs (turn_if b op ps)

-- What the blocks hold, for the abstract view.
abbrev pub note_of : Option Reminder → List Note
note_of none = []
note_of (some e) = record { text = e.notification_text; time = e.ellapse_time } ∷ []

abbrev pub notes_in : Blocks Reminder → List ℕ → List Note
notes_in R [] = []
notes_in R (r ∷ rs) = note_of (R r) ++ notes_in R rs

abbrev pub page : Option String → List Note → List Page
page none ns = []
page (some name) ns = record { owner = name; notes = ns } ∷ []

module _ {C : Type 0} (lib : ListLib C) where
  open lib use {entries}

  abbrev pub page_of : Blocks Reminder → Option (User C) → List Page
  page_of R b = page (name_of b) (notes_in R (notes_of lib b))

  abbrev pub pages_in : Model C → List ℕ → List Page
  pages_in m [] = []
  pages_in m (u ∷ us) = page_of m.reminders (m.users u) ++ pages_in m us

  abbrev pub book : Model C → List Page
  book m = pages_in m (entries m.users_list)
