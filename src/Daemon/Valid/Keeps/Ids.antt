-- ===== src/Daemon/Valid/Keeps/Ids.antt =====
-- The identifiers of input devices keep the state valid.
use netevent.Prelude.{
  ℕ, ◌^◌, ◌<◌, ◌≡◌, refl, inl, inr, List, [], ◌∷◌, Bytes, Bool-cases, length, ltb, ◌%◌, arith,
}
use netevent.Daemon.Map.{emplace, string_lt}
use netevent.Daemon.State.{Daemon, Input, M, Outcome, done, thrown, out_of_fuel, ◌>>=◌, modify}
use netevent.Daemon.Inputs.{
  get_next_input_id, free_input_id, close_device, find_device, remove_device,
}
use netevent.Daemon.Valid.{IsValid, registry, AllFit}
use netevent.Daemon.Valid.Orders.{emplace-Ascending}
use netevent.Daemon.Valid.Registry.{registry-emplace}
use netevent.Daemon.Valid.Entries.{AllFit-emplace, Listed-emplace, HotkeysFit-mono}
use netevent.Daemon.Valid.Keeps.{Valid, Keeps, keeps_rules}
use netevent.Daemon.Valid.Keeps.Queue.{remove_fd-Keeps}

pub close_device-Keeps : (fd : ℕ) → Keeps (close_device fd)
unfolding close_device
close_device-Keeps fd = remove_fd-Keeps fd

pub find_device-Keeps : (name : Bytes) → Keeps (find_device name)
unfolding find_device
find_device-Keeps name = search keeps_rules depth 40

pub remove_device-Keeps : (name : Bytes) → Keeps (remove_device name)
unfolding remove_device
remove_device-Keeps name = search (keeps_rules, find_device-Keeps, close_device-Keeps) depth 40

pub free_input_id-Keeps : (id : ℕ) → id < 2 ^ 16 → Keeps (free_input_id id)
unfolding free_input_id
free_input_id-Keeps id h = record {
  at = λ d v. record {
    removed_once = v.removed_once;
    in_order = v.in_order;
    ids_fit = v.ids_fit;
    free_fit = (h, v.free_fit);
    hotkeys_fit = v.hotkeys_fit;
  };
}

-- A new input under a name that may be taken.
pub inserted-Keeps :
    (name : Bytes) (input : Input)
    → input.id < 2 ^ 16
    → Keeps (modify (λ d. record d { inputs = emplace string_lt name input d.inputs }))
inserted-Keeps name input h = record {
  at = λ d v.
      let same : registry (emplace string_lt name input d.inputs)
          ≡ emplace string_lt name input.id (registry d.inputs) =
        registry-emplace name input d.inputs in
      record {
        removed_once = v.removed_once;
        in_order = rw same (emplace-Ascending name input.id (registry d.inputs) v.in_order);
        ids_fit = rw same (AllFit-emplace name input.id (registry d.inputs) h v.ids_fit);
        free_fit = v.free_fit;
        hotkeys_fit = rw same (
            HotkeysFit-mono (registry d.inputs)
              (emplace string_lt name input.id (registry d.inputs)) d.hotkeys
              (λ i. Listed-emplace i name input.id (registry d.inputs)) v.hotkeys_fit);
      };
}

-- What `getNextInputID` returns fits 16 bits.
abbrev Fits : Outcome ℕ → Type 0
Fits (done id d) = (id < 2 ^ 16) × IsValid d
Fits (thrown e d) = IsValid d
Fits out_of_fuel = Unit {0}

picked-Fits :
    (free : List ℕ) (d : Daemon)
    → AllFit free
    → IsValid d
    → Fits (elim free [
      | [] ↦ done (length d.inputs % 2 ^ 16) d
      | next ∷ rest ↦ done next (record d { free_ids = rest })
    ])
picked-Fits [] d a v = (omega arith, v)
picked-Fits (id ∷ rest) d a v = (
  a.0,
  record {
    removed_once = v.removed_once;
    in_order = v.in_order;
    ids_fit = v.ids_fit;
    free_fit = a.1;
    hotkeys_fit = v.hotkeys_fit;
  },
)

next_id-Fits : (d : Daemon) → IsValid d → Fits (get_next_input_id d)
unfolding get_next_input_id
next_id-Fits d v = elim (Bool-cases (ltb 0xffff (length d.inputs))) [
  | inl e ↦ rw e v
  | inr e ↦ rw e (picked-Fits d.free_ids d v.free_fit v)
]

pub next_id-Keeps :
    {A : Type 0} (f : ℕ → M A)
    → ((id : ℕ) → id < 2 ^ 16 → Keeps (f id))
    → Keeps (get_next_input_id >>= f)
next_id-Keeps f k = record { at = λ d v. go d (get_next_input_id d) refl (next_id-Fits d v) }
  where
    go :
        (d : Daemon) (o : Outcome ℕ)
        → get_next_input_id d ≡ o
        → Fits o
        → Valid ((get_next_input_id >>= f) d)
    go d (done id e) q h = rw (q, ◌>>=◌) ((k id h.0).at e h.1)
    go d (thrown x e) q h = rw (q, ◌>>=◌) h
    go d out_of_fuel q h = rw (q, ◌>>=◌) tt
