-- ===== src/Daemon/Commands/Hotkey.antt =====
-- `addHotkey`, `removeHotkey` and `clientCommand_Hotkey` (daemon.cpp).
use netevent.Prelude.{ℕ, List, [], ◌∷◌, Option, Bytes, leb, if◌then◌else◌, codes, str_eq}
use netevent.Text.Number.{join}
use netevent.Text.Lexer.{c_string}
use netevent.Text.Event.{ev_cnt, ok, err, parse_spec}
use netevent.Daemon.Map.{HotkeyDef, find, assign, erase, string_lt, hotkey_lt}
use netevent.Daemon.State.{
  Env, M, done, thrown, throw, ◌>>=◌, ◌>>◌, get, some_or, missing_subcommand, usage,
  unknown_subcommand, unknown_event_type, bad_spec, no_such_device, added_hotkey, removed_hotkey,
}
use netevent.Daemon.Queue.{to_client}

-- `addHotkey`
unfoldable pub add_hotkey : HotkeyDef → Bytes → M (Unit {0})
add_hotkey def command d =
    if leb ev_cnt def.type
    then thrown (unknown_event_type def.type) d
    else done tt (record d { hotkeys = assign hotkey_lt def command d.hotkeys })

-- `removeHotkey`
unfoldable pub remove_hotkey : HotkeyDef → M (Unit {0})
remove_hotkey def d =
    if leb ev_cnt def.type
    then thrown (unknown_event_type def.type) d
    else done tt (record d { hotkeys = erase hotkey_lt def d.hotkeys })

-- The device and the hotkey that both commands read.
unfoldable pub read_hotkey : Bytes → Bytes → M HotkeyDef
unfolding parse_spec
read_hotkey device text = do
  d ← get
  input ← some_or (find string_lt device d.inputs) (no_such_device device)
  elim (parse_spec text) [
    | err e ↦ throw (bad_spec e)
    | ok spec ↦ λ d.
        done (record { device = input.id; type = spec.type; code = spec.code; value = spec.value })
          d
  ]

-- `clientCommand_Hotkey`, with the arguments behind `hotkey`. The command is passed on as a C
-- string.
unfoldable pub hotkey_command : Env → Option ℕ → List Bytes → M (Unit {0})
unfolding add_hotkey remove_hotkey read_hotkey
hotkey_command env client [] = throw missing_subcommand
hotkey_command env client (sub ∷ args) =
    if str_eq sub (codes "add")
    then elim args [
      | device ∷ text ∷ piece ∷ pieces ↦ read_hotkey device text >>= λ def.
          add_hotkey def (c_string (join b' ' (piece ∷ pieces)))
          >> to_client env client (added_hotkey def)
      | _ ↦ throw usage
    ]
    else if str_eq sub (codes "remove")
    then elim args [
      | device ∷ text ∷ [] ↦ read_hotkey device text >>= λ def.
          remove_hotkey def >> to_client env client (removed_hotkey def)
      | _ ↦ throw usage
    ]
    else throw unknown_subcommand
