-- ===== src/Daemon/Valid.antt =====
-- What holds of the daemon's state at any time, and the maps behind it.
pub mod Orders
pub mod Registry
pub mod Entries
pub mod Keeps
use netevent.Prelude.{
  ℕ, ◌^◌, ◌<◌, ◌≡◌, refl, ap, ◌⊎◌, Bool, true, false, List, [], ◌∷◌, Option, some, Bytes,
  if◌then◌else◌,
}
use netevent.Text.Event.{ev_cnt}
use netevent.Daemon.Map.{Map, HotkeyDef, string_lt}
use netevent.Daemon.State.{Daemon, Input, initial}
use netevent.Daemon.Queue.{contains}

-- The names and the identifiers of the inputs.
abbrev pub registry : Map Bytes Input → Map Bytes ℕ
registry [] = []
registry ((name, input) ∷ m) = (name, input.id) ∷ registry m

module _ {V : Type 0} where
  -- Every name is above a name.
  abbrev pub AllAbove : Bytes → Map Bytes V → Type 0
  AllAbove k [] = Unit {0}
  AllAbove k ((j, v) ∷ m) = (string_lt k j ≡ true) × AllAbove k m

  abbrev pub Ascending : Map Bytes V → Type 0
  Ascending [] = Unit {0}
  Ascending ((j, v) ∷ m) = AllAbove j m × Ascending m

abbrev pub AllFit : List ℕ → Type 0
AllFit [] = Unit {0}
AllFit (id ∷ ids) = (id < 2 ^ 16) × AllFit ids

abbrev pub values : Map Bytes ℕ → List ℕ
values [] = []
values ((name, id) ∷ m) = id ∷ values m

-- An identifier is in use.
abbrev pub Listed : ℕ → Map Bytes ℕ → Type 0
Listed id [] = ⊥
Listed id ((name, j) ∷ m) = (id ≡ j) ⊎ Listed id m

-- Every hotkey has an event type of the kernel's and a device that is there.
abbrev pub HotkeysFit : Map Bytes ℕ → Map HotkeyDef Bytes → Type 0
HotkeysFit ids [] = Unit {0}
HotkeysFit ids ((def, command) ∷ m) =
    ((def.type < ev_cnt) × Listed def.device ids) × HotkeysFit ids m

abbrev pub Distinct : List ℕ → Type 0
Distinct [] = Unit {0}
Distinct (fd ∷ fds) = (contains fds fd ≡ false) × Distinct fds

-- No descriptor waits twice for its removal; the inputs are in the order of their names; the
-- identifiers, those of the inputs and those that are free, fit 16 bits; and the hotkeys are of
-- devices that are there.
pub record IsValid (d : Daemon) : Type 0 where
  pub removed_once : Distinct d.remove_queue
  pub in_order : Ascending (registry d.inputs)
  pub ids_fit : AllFit (values (registry d.inputs))
  pub free_fit : AllFit d.free_ids
  pub hotkeys_fit : HotkeysFit (registry d.inputs) d.hotkeys

-- The state in front of the loop.
pub initial-IsValid : IsValid initial
initial-IsValid = record {
  removed_once = tt;
  in_order = tt;
  ids_fit = tt;
  free_fit = tt;
  hotkeys_fit = tt;
}
