-- ===== src/Daemon/Commands/Info.antt =====
-- `clientCommand_Info` (daemon.cpp): its messages, in order.
use netevent.Prelude.{ℕ, List, [], ◌∷◌, ◌++◌, Option, Bytes, length}
use netevent.Text.Event.{ev2string}
use netevent.Daemon.Map.{HotkeyDef}
use netevent.Daemon.State.{
  Daemon, Env, M, Reply, Input, ◌>>=◌, ◌>>◌, skip, get, grab_devices, write_events, input_count,
  output_count, input_line, output_line, current_output, hotkeys_title, actions_title, hotkey_line,
  action_line,
}
use netevent.Daemon.Queue.{to_client}

abbrev pub input_lines : List (Bytes × Input) → List Reply
input_lines [] = []
input_lines ((name, i) ∷ m) = input_line i.id name i.device.fd ∷ input_lines m

abbrev pub output_lines : List (Bytes × ℕ) → List Reply
output_lines [] = []
output_lines ((name, fd) ∷ m) = output_line name fd ∷ output_lines m

abbrev pub hotkey_lines : List (HotkeyDef × Bytes) → List Reply
hotkey_lines [] = []
hotkey_lines ((def, command) ∷ m) = hotkey_line def (ev2string def.type) command ∷ hotkey_lines m

abbrev pub action_lines : List (Bytes × Bytes) → List Reply
action_lines [] = []
action_lines ((event, command) ∷ m) = action_line event command ∷ action_lines m

unfoldable pub info_lines : Daemon → List Reply
info_lines d =
    (grab_devices d.grab
      ∷ write_events d.write
      ∷ input_count (length d.inputs)
      ∷ input_lines d.inputs)
    ++ ((output_count (length d.outputs) ∷ output_lines d.outputs)
        ++ ((current_output d.current_fd d.current_name ∷ hotkeys_title ∷ hotkey_lines d.hotkeys)
            ++ (actions_title ∷ action_lines d.event_commands)))

unfoldable pub to_client_all : Env → Option ℕ → List Reply → M (Unit {0})
unfolding to_client
to_client_all env client [] = skip
to_client_all env client (r ∷ rs) = to_client env client r >> to_client_all env client rs

-- `clientCommand_Info`
unfoldable pub info_command : Env → Option ℕ → M (Unit {0})
unfolding info_lines to_client_all
info_command env client = get >>= λ d. to_client_all env client (info_lines d)
