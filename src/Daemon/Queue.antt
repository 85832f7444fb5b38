-- ===== src/Daemon/Queue.antt =====
-- Descriptors and clients (daemon.cpp, `removeFD` to `toClient`).
use netevent.Prelude.{
  ℕ, Bool, true, false, List, [], ◌∷◌, ◌++◌, Option, none, some, Bytes, ltb, ◌==◌, if◌then◌else◌,
}
use netevent.Packet.{remove_packet}
use netevent.Daemon.Map.{Map, HotkeyDef, find, assign, string_lt}
use netevent.Daemon.State.{
  Env, M, Reply, Callback, Input, done, thrown, pure, ◌>>=◌, ◌>>◌, skip, get, modify, some_or,
  effect, next_call, wrote, replied, no_such_output, command_client, no_such_client,
}

-- `std::find(…) != end()`
unfoldable pub contains : List ℕ → ℕ → Bool
contains [] x = false
contains (y ∷ ys) x = if x == y then true else contains ys x

-- `removeFD`
unfoldable pub remove_fd : ℕ → M (Unit {0})
unfolding contains
remove_fd fd d =
    if contains d.remove_queue fd
    then done tt d
    else done tt (record d { remove_queue = d.remove_queue ++ (fd ∷ []) })

-- `removeOutput(const string&)`
unfoldable pub remove_output : Bytes → M (Unit {0})
remove_output name = do
  d ← get
  fd ← some_or (find string_lt name d.outputs) (no_such_output name)
  remove_fd fd

-- `cleanupDeviceHotkeys`
unfoldable pub without_device : ℕ → Map HotkeyDef Bytes → Map HotkeyDef Bytes
without_device id [] = []
without_device id ((def, command) ∷ m) =
    if def.device == id then without_device id m else (def, command) ∷ without_device id m

unfoldable pub cleanup_device_hotkeys : ℕ → M (Unit {0})
cleanup_device_hotkeys id d = done tt (record d { hotkeys = without_device id d.hotkeys })

-- `disconnectClient`
unfoldable pub disconnect_client : ℕ → M (Unit {0})
unfolding remove_fd
disconnect_client fd = remove_fd fd

unfoldable pub without : ℕ → List ℕ → List ℕ
without fd [] = []
without fd (x ∷ xs) = if x == fd then xs else x ∷ without fd xs

-- `finishClientRemoval`
unfoldable pub finish_client_removal : ℕ → M (Unit {0})
unfolding contains without
finish_client_removal fd d =
    if contains d.clients fd
    then done tt (record d { clients = without fd d.clients })
    else thrown no_such_client d

-- `queueCommand`
unfoldable pub queue_command : Option ℕ → Bytes → M (Unit {0})
queue_command client line d = done tt (record d {
  command_queue = d.command_queue ++ (record { client = client; command = line } ∷ []);
})

-- `readCommand`; the line that `getline` returns is a parameter, `none` at the end of the file or
-- after an error.
unfoldable pub read_command : ℕ → Option Bytes → M (Unit {0})
unfolding disconnect_client queue_command
read_command fd none = disconnect_client fd
read_command fd (some line) = queue_command (some fd) line

-- `addFD`
unfoldable pub add_fd : ℕ → M (Unit {0})
add_fd fd d = done tt (record d { add_queue = d.add_queue ++ (fd ∷ []) })

-- A map from descriptors as `std::map<int, …>`; descriptors are not negative.
abbrev pub set_callback : ℕ → Callback → M (Unit {0})
set_callback fd c d = done tt (record d { callbacks = assign ltb fd c d.callbacks })

-- `newCommandClient`, with the descriptor of the accepted connection.
unfoldable pub new_command_client : ℕ → M (Unit {0})
unfolding add_fd contains
new_command_client fd = do
  add_fd fd
  set_callback fd command_client
  modify (λ d. record d { clients = if contains d.clients fd then d.clients else fd ∷ d.clients })

module _ (env : Env) where
  -- `writeToOutput`; it returns whether the write succeeded.
  unfoldable pub write_to_output : ℕ → Bytes → M Bool
  unfolding remove_fd
  write_to_output fd bytes = do
    n ← next_call
    if env.write_ok n fd bytes
        then effect (wrote fd bytes) >> pure true
        else remove_fd fd >> pure false

  -- The loops of `announceDeviceRemoval` over the outputs.
  unfoldable pub write_to_outputs : Bytes → List (Bytes × ℕ) → M (Unit {0})
  unfolding write_to_output
  write_to_outputs bytes [] = skip
  write_to_outputs bytes ((name, fd) ∷ outputs) =
      write_to_output fd bytes >>= λ _. write_to_outputs bytes outputs

  -- `announceDeviceRemoval`
  unfoldable pub announce_device_removal : Input → M (Unit {0})
  announce_device_removal input = do d ← get; write_to_outputs (remove_packet input.id) d.outputs

  -- `toClient`: a client that does not take the message is dropped; standard error has no
  -- descriptor to drop.
  unfoldable pub to_client : Option ℕ → Reply → M (Unit {0})
  unfolding disconnect_client
  to_client none reply = effect (replied none reply)
  to_client (some fd) reply = do
    n ← next_call
    if env.reply_ok n fd reply then effect (replied (some fd) reply) else disconnect_client fd
