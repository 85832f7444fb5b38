-- ===== src/Daemon/Valid/Keeps/Commands.antt =====
-- The commands keep the state valid.
use netevent.Prelude.{
  ℕ, ◌≡◌, inl, inr, Bool, List, [], ◌∷◌, Option, none, some, Bytes, Option-cases, codes, str_eq,
  if◌then◌else◌,
}
use netevent.Text.Number.{parse_bool}
use netevent.Text.Lexer.{c_string}
use netevent.Device.In.{InDevice, set_name, reset_name, set_persistent}
use netevent.Daemon.Map.{find, assign, string_lt}
use netevent.Daemon.State.{
  Daemon, Env, Input, Reply, M, throw, ◌>>=◌, ◌>>◌, some_or, name_too_long, added_device,
  removing_device, usage, unknown_subcommand, renamed_device, reset_device, made_persistent,
  made_removable, not_boolean,
}
use netevent.Daemon.Queue.{to_client}
use netevent.Daemon.Inputs.{find_device, add_device, remove_device}
use netevent.Daemon.Commands.Device.{
  put_device, rename_device, reset_device_name, make_persistent, device_command,
}
use netevent.Daemon.Valid.{IsValid, registry}
use netevent.Daemon.Valid.Registry.{registry-assign}
use netevent.Daemon.Valid.Keeps.{Valid, Keeps, Keeps-then, Keeps-if, Keeps-throw, keeps_rules}
use netevent.Daemon.Valid.Keeps.Queue.{to_client-Keeps}
use netevent.Daemon.Valid.Keeps.Ids.{remove_device-Keeps}
use netevent.Daemon.Valid.Keeps.Inputs.{add_device-Keeps}

-- A device that is changed in place.
put_device-Valid :
    (name : Bytes) (input : Input) (dev : InDevice) (d : Daemon)
    → find string_lt name d.inputs ≡ some input
    → IsValid d
    → Valid (put_device name input dev d)
put_device-Valid name input dev d h v =
    let same : registry (assign string_lt name (record input { device = dev }) d.inputs)
        ≡ registry d.inputs =
      registry-assign name input dev d.inputs v.in_order h in
    record {
      removed_once = v.removed_once;
      in_order = rw same v.in_order;
      ids_fit = rw same v.ids_fit;
      free_fit = v.free_fit;
      hotkeys_fit = rw same v.hotkeys_fit;
    }

-- What follows `findDevice` in the same state.
found-Keeps :
    {A : Type 0} (name : Bytes) (f : Input → M A)
    → ((input : Input) (d : Daemon)
        → find string_lt name d.inputs ≡ some input
        → IsValid d
        → Valid (f input d))
    → Keeps (find_device name >>= f)
unfolding find_device
found-Keeps name f k = record {
  at = λ d v. elim (Option-cases (find string_lt name d.inputs)) [
    | inl e ↦ rw (e, Valid) v
    | inr (input, e) ↦ rw (e, Valid) (k input d e v)
  ];
}

-- A device that is found, changed where that is possible, and a message.
changed-Valid :
    (env : Env) (client : Option ℕ) (name : Bytes) (input : Input) (o : Option InDevice)
    (reply : InDevice → Reply) (d : Daemon)
    → find string_lt name d.inputs ≡ some input
    → IsValid d
    → Valid (
        (some_or o name_too_long >>= λ dev.
        put_device name input dev >> to_client env client (reply dev))
          d)
changed-Valid env client name input none reply d h v = v
changed-Valid env client name input (some dev) reply d h v =
    (to_client-Keeps env client (reply dev)).at _ (put_device-Valid name input dev d h v)

-- A subcommand of one argument or of two.
pub one-Keeps :
    (k : Bytes → M (Unit {0})) (args : List Bytes)
    → ((a : Bytes) → Keeps (k a))
    → Keeps {A = Unit {0}} (elim args [ a ∷ [] ↦ k a | _ ↦ throw usage ])
one-Keeps k [] h = search keeps_rules
one-Keeps k (a ∷ []) h = h a
one-Keeps k (a ∷ b ∷ xs) h = search keeps_rules

pub two-Keeps :
    (k : Bytes → Bytes → M (Unit {0})) (args : List Bytes)
    → ((a b : Bytes) → Keeps (k a b))
    → Keeps {A = Unit {0}} (elim args [ a ∷ b ∷ [] ↦ k a b | _ ↦ throw usage ])
two-Keeps k [] h = search keeps_rules
two-Keeps k (a ∷ []) h = search keeps_rules
two-Keeps k (a ∷ b ∷ []) h = h a b
two-Keeps k (a ∷ b ∷ x ∷ xs) h = search keeps_rules

module _ (env : Env) (client : Option ℕ) where
  rename_device-Keeps : (device name : Bytes) → Keeps (rename_device env client device name)
  unfolding rename_device
  rename_device-Keeps device name = found-Keeps device _ (λ input d h v.
      changed-Valid env client device input (set_name name input.device)
        (λ dev. renamed_device dev.name name) d h v)

  reset_device_name-Keeps : (device : Bytes) → Keeps (reset_device_name env client device)
  unfolding reset_device_name
  reset_device_name-Keeps device = found-Keeps device _ (λ input d h v.
      changed-Valid env client device input (reset_name input.device) (λ dev. reset_device dev.name)
        d h v)

  persistent-Valid :
      (device text : Bytes) (input : Input) (o : Option Bool) (d : Daemon)
      → find string_lt device d.inputs ≡ some input
      → IsValid d
      → let m : M (Unit {0}) = elim o [
        | none ↦ to_client env client (not_boolean text)
        | some value ↦
            put_device device input (set_persistent value input.device)
            >> to_client env client
                (if value then made_persistent device else made_removable device)
      ] in
        Valid (m d)
  persistent-Valid device text input none d h v =
      (to_client-Keeps env client (not_boolean text)).at d v
  persistent-Valid device text input (some value) d h v =
      (to_client-Keeps env client _).at _
        (put_device-Valid device input (set_persistent value input.device) d h v)

  make_persistent-Keeps : (device text : Bytes) → Keeps (make_persistent env client device text)
  unfolding make_persistent
  make_persistent-Keeps device text =
      found-Keeps device _
        (λ input d h v. persistent-Valid device text input (parse_bool (c_string text)) d h v)

  pub device_command-Keeps : (args : List Bytes) → Keeps (device_command env client args)
  unfolding device_command
  device_command-Keeps [] = search keeps_rules
  device_command-Keeps (sub ∷ args) =
      Keeps-if (str_eq sub (codes "add")) _ _
        (two-Keeps
          (λ name path.
            add_device env name (c_string path) >> to_client env client (added_device name))
          args
          (λ name path.
            Keeps-then _ _ (add_device-Keeps env name (c_string path))
              (to_client-Keeps env client _)))
        (Keeps-if (str_eq sub (codes "remove")) _ _
          (one-Keeps (λ name. remove_device name >> to_client env client (removing_device name))
            args (λ name. Keeps-then _ _ (remove_device-Keeps name) (to_client-Keeps env client _)))
          (Keeps-if (str_eq sub (codes "rename")) _ _
            (two-Keeps (rename_device env client) args rename_device-Keeps)
            (Keeps-if (str_eq sub (codes "reset-name")) _ _
              (one-Keeps (reset_device_name env client) args reset_device_name-Keeps)
              (Keeps-if (str_eq sub (codes "set-persistent")) _ _
                (two-Keeps (make_persistent env client) args make_persistent-Keeps)
                (Keeps-throw unknown_subcommand)))))
