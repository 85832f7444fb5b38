-- ===== src/Daemon/Commands/Device.antt =====
-- `clientCommand_Device` (daemon.cpp).
use netevent.Prelude.{ℕ, List, [], ◌∷◌, Option, none, some, Bytes, if◌then◌else◌, codes, str_eq}
use netevent.Text.Number.{parse_bool}
use netevent.Text.Lexer.{c_string}
use netevent.Device.In.{InDevice, set_name, reset_name, set_persistent}
use netevent.Daemon.Map.{assign, string_lt}
use netevent.Daemon.State.{
  Env, M, Input, throw, ◌>>=◌, ◌>>◌, modify, some_or, missing_subcommand, usage, unknown_subcommand,
  name_too_long, added_device, removing_device, renamed_device, reset_device, made_persistent,
  made_removable, not_boolean,
}
use netevent.Daemon.Queue.{to_client}
use netevent.Daemon.Inputs.{add_device, remove_device, find_device}

-- The device that `findDevice` points to, changed in place.
abbrev pub put_device : Bytes → Input → InDevice → M (Unit {0})
put_device name input dev =
    modify
      (λ d. record d { inputs = assign string_lt name (record input { device = dev }) d.inputs })

module _ (env : Env) (client : Option ℕ) where
  unfoldable pub rename_device : Bytes → Bytes → M (Unit {0})
  unfolding find_device set_name
  rename_device device name = do
    input ← find_device device
    dev ← some_or (set_name name input.device) name_too_long
    put_device device input dev
    to_client env client (renamed_device dev.name name)

  unfoldable pub reset_device_name : Bytes → M (Unit {0})
  unfolding find_device reset_name
  reset_device_name device = do
    input ← find_device device
    dev ← some_or (reset_name input.device) name_too_long
    put_device device input dev
    to_client env client (reset_device dev.name)

  unfoldable pub make_persistent : Bytes → Bytes → M (Unit {0})
  unfolding find_device set_persistent
  make_persistent device text = do
    input ← find_device device
    elim (parse_bool (c_string text)) [
      | none ↦ to_client env client (not_boolean text)
      | some value ↦
          put_device device input (set_persistent value input.device)
          >> to_client env client (if value then made_persistent device else made_removable device)
    ]

  -- `clientCommand_Device`, with the arguments behind `device`.
  unfoldable pub device_command : List Bytes → M (Unit {0})
  unfolding rename_device reset_device_name make_persistent add_device remove_device
  device_command [] = throw missing_subcommand
  device_command (sub ∷ args) =
      if str_eq sub (codes "add")
      then elim args [
        | name ∷ path ∷ [] ↦
            add_device env name (c_string path) >> to_client env client (added_device name)
        | _ ↦ throw usage
      ]
      else if str_eq sub (codes "remove")
      then elim args [
        | name ∷ [] ↦ remove_device name >> to_client env client (removing_device name)
        | _ ↦ throw usage
      ]
      else if str_eq sub (codes "rename")
      then elim args [ device ∷ name ∷ [] ↦ rename_device device name | _ ↦ throw usage ]
      else if str_eq sub (codes "reset-name")
      then elim args [ device ∷ [] ↦ reset_device_name device | _ ↦ throw usage ]
      else if str_eq sub (codes "set-persistent")
      then elim args [ device ∷ text ∷ [] ↦ make_persistent device text | _ ↦ throw usage ]
      else throw unknown_subcommand
