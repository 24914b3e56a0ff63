-- ===== src/Reminders/Tests/Loaded.antt =====
-- The loading of the kernel's module of task8, which runs its tests.
use Prim.Native.String.{String}
use embedded_basecamp.Prelude.{◌≡◌, Option, none, some}
use embedded_basecamp.Links.{ListLib}
use embedded_basecamp.Reminders.{Model}
use embedded_basecamp.Reminders.Book.Client.{Supply}
use embedded_basecamp.Reminders.Tests.{Call, act}
use embedded_basecamp.Reminders.Tests.Stages.{Stage, At}

module _ {C : Type 0} (lib : ListLib C) (supply : Supply C) where
  abbrev Reaches : Call → Stage → Model C → Type 0
  Reaches c t m = (m' : Model C) × (act lib supply c m ≡ some m') × At lib t m'

  abbrev Leads : Option Stage → Call → Model C → Type 0
  Leads none c m = Unit
  Leads (some t) c m = Reaches c t m
