-- ===== src/Daemon/Main/Life.antt =====
-- The state of the daemon in its whole life.
use netevent.Prelude.{ℕ, refl, Bool, true, false, List, [], ◌∷◌, Option, none, some, Bytes, arith}
use netevent.Socket
use netevent.Socket.{listened, bound, Call, unlinked, closed_socket, path_size}
use netevent.Text.Lexer.{c_string}
use netevent.Options.{Arguments, Parsed, go, leaves, daemon_arguments}
use netevent.Daemon.State.{
  Daemon, Env, M, Outcome, done, Callback, server, initial, some_or, bind-done,
}
use netevent.Daemon.State as State
use netevent.Daemon.Commands.Dispatch.{run_text}
use netevent.Daemon.Events.{Run}
use netevent.Daemon.Loop.{Polled}
use netevent.Daemon.Valid.{IsValid, initial-IsValid}
use netevent.Daemon.Valid.Keeps.{Keeps, Valid, same-IsValid, Keeps-skip, Keeps-then, Keeps-modify}
use netevent.Daemon.Valid.Keeps.Run.{source_command_file-Keeps, run_text-Keeps}
use netevent.Daemon.Valid.Keeps.Loop.{serve-Keeps}
use netevent.Daemon.Main.{
  System, DaemonEnd, returns, threw, waits, on_signal, signalled, shut_down, source_all, run_daemon,
  ended, loop_left, on_descriptor, with_server, on_name, with_arguments, cmd_daemon,
}

-- The state at an end is valid.
abbrev pub EndValid : DaemonEnd → Type 0
EndValid (returns d s) = IsValid d
EndValid (threw d s) = IsValid d
EndValid (waits d s) = IsValid d
EndValid _ = Unit {0}

signalled-IsValid : (sig : Option ℕ) (d : Daemon) → IsValid d → IsValid (signalled sig d)
unfolding on_signal
signalled-IsValid none d v = v
signalled-IsValid (some sig) d v =
    ground (arith, same-IsValid d (record d { quit = true }) refl refl refl refl v)

shut_down-IsValid : (d : Daemon) → IsValid d → IsValid (shut_down d)
unfolding shut_down
shut_down-IsValid d v = record {
  removed_once = tt;
  in_order = v.in_order;
  ids_fit = v.ids_fit;
  free_fit = v.free_fit;
  hotkeys_fit = v.hotkeys_fit;
}

loop_left-EndValid :
    (b : Bool) (d : Daemon) (s : Socket.State) → IsValid d → EndValid (loop_left b d s)
loop_left-EndValid true d s v = shut_down-IsValid d v
loop_left-EndValid false d s v = v

ended-EndValid :
    (sig : Option ℕ) (s : Socket.State) (o : Outcome (List ℕ)) → Valid o → EndValid (ended sig s o)
unfolding ended
ended-EndValid sig s (State.done pfds d) v =
    loop_left-EndValid (signalled sig d).quit (signalled sig d) s (signalled-IsValid sig d v)
ended-EndValid sig s (State.thrown e d) v = v
ended-EndValid sig s State.out_of_fuel v = tt

module _ (env : Env) (run : Run) (run-Keeps : (c : Option ℕ) (t : Bytes) → Keeps (run c t)) where
  source_all-Keeps : (files : List Bytes) → Keeps (source_all env run files)
  unfolding source_all
  source_all-Keeps [] = Keeps-skip
  source_all-Keeps (file ∷ files) =
      Keeps-then _ _ (source_command_file-Keeps env run run-Keeps none (c_string file))
        (source_all-Keeps files)

  run_daemon-Keeps :
      (fd : ℕ) (files : List Bytes) (answers : List Polled)
      → Keeps (run_daemon env run fd files answers)
  unfolding run_daemon
  run_daemon-Keeps fd files answers =
      Keeps-then _ _ (Keeps-modify _ (λ d. refl) (λ d. refl) (λ d. refl) (λ d. refl))
        (Keeps-then _ _ (source_all-Keeps files) (serve-Keeps env run run-Keeps answers (fd ∷ [])))

module _ (env : Env) (depth : ℕ) (y : System) where
  on_descriptor-EndValid :
      (files : List Bytes) (answers : List Polled) (sig : Option ℕ) (s : Socket.State)
      (fd : Option ℕ)
      → EndValid (on_descriptor env depth y files answers sig s fd)
  on_descriptor-EndValid files answers sig s none = tt
  on_descriptor-EndValid files answers sig s (some fd) = ended-EndValid sig s _ (
      (run_daemon-Keeps env (run_text env depth) (run_text-Keeps env depth) fd files answers).at
        initial initial-IsValid)

  with_server-EndValid :
      (files : List Bytes) (answers : List Polled) (sig : Option ℕ) (r : Socket.Result)
      → EndValid (with_server env depth y files answers sig r)
  unfolding with_server
  with_server-EndValid files answers sig Socket.out_of_bounds = tt
  with_server-EndValid files answers sig (Socket.thrown e s) = tt
  with_server-EndValid files answers sig (Socket.fine s) =
      on_descriptor-EndValid files answers sig s s.socket.fd

  with_arguments-EndValid :
      (answers : List Polled) (sig : Option ℕ) (p : Parsed (List Bytes × Bytes))
      → EndValid (with_arguments env depth y answers sig p)
  with_arguments-EndValid answers sig (leaves status) = tt
  with_arguments-EndValid answers sig (go (files, name)) =
      with_server-EndValid files answers sig (on_name env depth y (c_string name))

  -- The state stays valid in the whole life of the daemon, from its start without any inputs, through
  -- its command files and its main loop to its end, whatever the options, the events, the clients,
  -- their commands, the signal and the answers of the system are, and also where an exception ends
  -- it: no descriptor waits twice for its removal, the inputs are in the order of their names, all
  -- identifiers fit 16 bits, and every hotkey has an event type of the kernel's and a device that is
  -- there.
  pub cmd_daemon-EndValid :
      (a : Arguments) (answers : List Polled) (sig : Option ℕ)
      → EndValid (cmd_daemon env depth y a answers sig)
  unfolding cmd_daemon
  cmd_daemon-EndValid a answers sig = with_arguments-EndValid answers sig (daemon_arguments a)
