-- ===== src/Daemon/Hotkeys.antt =====
-- The hotkey table: what `tryHotkey` finds after `addHotkey`, `removeHotkey` and
-- `cleanupDeviceHotkeys` (daemon.cpp).
use netevent.Prelude.{
  ℕ, ◌+◌, ◌%◌, ◌^◌, ◌<◌, ◌≡◌, ◌≢◌, refl, inl, inr, ap, ◌∙◌, Bool, true, false, [], ◌∷◌, ◌++◌,
  Option, none, some, Bytes, arith, leb, ◌==◌, if◌then◌else◌, Bool-cases,
}
use netevent.Text.Event.{ev_cnt}
use netevent.Daemon.Map.{Map, HotkeyDef, hotkey_lt, same_key, find, assign}
use netevent.Daemon.Map.Laws.{find-assign_self, find-assign_ne}
use netevent.Daemon.State.{Daemon, bind-done, done, M, ◌>>◌}
use netevent.Daemon.Queue.{without_device, cleanup_device_hotkeys}
use netevent.Daemon.Events.{try_hotkey}
use netevent.Daemon.Commands.Hotkey.{add_hotkey}

-- The fields of two definitions that are the same key.
abbrev pub SameFields : HotkeyDef → HotkeyDef → Type 0
SameFields a b =
    (a.device ≡ b.device)
    × (a.type ≡ b.type)
    × (a.code ≡ b.code)
    × ((a.value + 2 ^ 31) % 2 ^ 32 ≡ (b.value + 2 ^ 31) % 2 ^ 32)

same_key_fields : (a b : HotkeyDef) → same_key hotkey_lt a b ≡ true → SameFields a b
unfolding hotkey_lt
same_key_fields a b h = (ground arith, ground arith, ground arith, ground arith)

fields_same_key : (a b : HotkeyDef) → SameFields a b → same_key hotkey_lt a b ≡ true
unfolding hotkey_lt
fields_same_key a b h = ground (arith, h.0, h.1, h.2, h.3)

same_key_refl : (a : HotkeyDef) → same_key hotkey_lt a a ≡ true
same_key_refl a = fields_same_key a a (refl, refl, refl, refl)

-- `same_key` does not tell two keys that are the same apart.
same_key_cong :
    (i j k : HotkeyDef)
    → same_key hotkey_lt j i ≡ true
    → same_key hotkey_lt k i ≡ same_key hotkey_lt k j
unfolding hotkey_lt
same_key_cong i j k h = let s = same_key_fields j i h in ground (arith, s.0, s.1, s.2, s.3)

other_key : (k j : HotkeyDef) → ¬ SameFields k j → same_key hotkey_lt k j ≡ false
other_key k j n = elim (Bool-cases (same_key hotkey_lt k j)) [
  | inl e ↦ absurd (n (same_key_fields k j e))
  | inr e ↦ e
]

device_differs : (i k : HotkeyDef) → (i.device == k.device) ≡ false → k.device ≢ i.device
device_differs i k h = ground arith

-- The event that a definition names.
abbrev pub try_key : HotkeyDef → M Bool
try_key k = try_hotkey k.device k.type k.code k.value

-- What `tryHotkey` leaves when the event has a command.
abbrev pub triggered : Bytes → Daemon → Daemon
triggered command d = record d {
  command_queue = d.command_queue ++ (record { client = none; command = command } ∷ []);
}

pub try_key-some :
    (k : HotkeyDef) (command : Bytes) (d : Daemon)
    → k.type < ev_cnt
    → find hotkey_lt k d.hotkeys ≡ some command
    → try_key k d ≡ done true (triggered command d)
unfolding try_hotkey
try_key-some k command d t h =
    let fits : leb ev_cnt k.type ≡ false = ground arith in rw fits (rw h refl)

pub try_key-none :
    (k : HotkeyDef) (d : Daemon) → find hotkey_lt k d.hotkeys ≡ none → try_key k d ≡ done false d
unfolding try_hotkey
try_key-none k d h = elim (Bool-cases (leb ev_cnt k.type)) [
  | inl e ↦ rw e refl
  | inr e ↦ rw e (rw h refl)
]

-- What `addHotkey` leaves.
abbrev added : HotkeyDef → Bytes → Daemon → Daemon
added def command d = record d { hotkeys = assign hotkey_lt def command d.hotkeys }

add_hotkey_fits :
    (def : HotkeyDef) (command : Bytes) (d : Daemon)
    → def.type < ev_cnt
    → add_hotkey def command d ≡ done tt (added def command d)
unfolding add_hotkey
add_hotkey_fits def command d t =
    let fits : leb ev_cnt def.type ≡ false = ground arith in rw fits refl

-- After a hotkey is added, its event queues exactly its command, from no client, and is not passed
-- on; an event of any other key finds the command that it found before. The type is one that the
-- kernel counts.
pub add_hotkey-try_hotkey :
    (def k : HotkeyDef) (command : Bytes) (d : Daemon)
    → def.type < ev_cnt
    → ¬ SameFields k def
    → ((add_hotkey def command >> try_hotkey def.device def.type def.code def.value) d
        ≡ done true (record d {
          hotkeys = assign hotkey_lt def command d.hotkeys;
          command_queue = d.command_queue ++ (record { client = none; command = command } ∷ []);
        }))
      × (find hotkey_lt k (assign hotkey_lt def command d.hotkeys) ≡ find hotkey_lt k d.hotkeys)
add_hotkey-try_hotkey def k command d t n = (
  bind-done (add_hotkey def command) (λ _. try_key def) d (added def command d) tt
        (add_hotkey_fits def command d t)
      ∙ try_key-some def command (added def command d) t
          (find-assign_self hotkey_lt def command d.hotkeys (same_key_refl def)),
  find-assign_ne hotkey_lt def k command d.hotkeys (λ i. same_key_cong i def k) (other_key k def n),
)

find-without_device_self :
    (k : HotkeyDef) (m : Map HotkeyDef Bytes) → find hotkey_lt k (without_device k.device m) ≡ none
unfolding find without_device
find-without_device_self k [] = refl
find-without_device_self k ((i, w) ∷ m) = elim (Bool-cases (i.device == k.device)) [
  | inl e ↦ rw e (find-without_device_self k m)
  | inr e ↦ rw e (rw (other_key k i (λ s. device_differs i k e s.0)) (find-without_device_self k m))
]

find-without_device_ne :
    (id : ℕ) (k : HotkeyDef) (m : Map HotkeyDef Bytes)
    → k.device ≢ id
    → find hotkey_lt k (without_device id m) ≡ find hotkey_lt k m
unfolding find without_device
find-without_device_ne id k [] n = refl
find-without_device_ne id k ((i, w) ∷ m) n = elim (Bool-cases (i.device == id)) [
  | inl e ↦
      rw e (rw (other_key k i (λ s. n (s.0 ∙ ground arith))) (find-without_device_ne id k m n))
  | inr e ↦ rw e (
      ap (λ (r : Option Bytes). if same_key hotkey_lt k i then some w else r)
        (find-without_device_ne id k m n))
]

-- After the hotkeys of a device are cleaned up, no event of that device triggers anything, and an
-- event of another device finds the command that it found before.
pub cleanup_device_hotkeys-try_hotkey :
    (id type code value : ℕ) (k : HotkeyDef) (d : Daemon)
    → k.device ≢ id
    → ((cleanup_device_hotkeys id >> try_hotkey id type code value) d
        ≡ done false (record d { hotkeys = without_device id d.hotkeys }))
      × (find hotkey_lt k (without_device id d.hotkeys) ≡ find hotkey_lt k d.hotkeys)
unfolding cleanup_device_hotkeys
cleanup_device_hotkeys-try_hotkey id type code value k d n = (
  try_key-none (record { device = id; type = type; code = code; value = value })
      (record d { hotkeys = without_device id d.hotkeys })
      (find-without_device_self (record { device = id; type = type; code = code; value = value })
        d.hotkeys),
  find-without_device_ne id k d.hotkeys n,
)
