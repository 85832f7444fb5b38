-- ===== src/Daemon/Main.antt =====
-- `netevent daemon` (daemon.cpp, `cmd_daemon` and `signull`): the socket, the command files, the main
-- loop and the end. The answers of `poll` are an argument, and so is the signal that comes behind
-- them. The destructor of the socket is Socket.close.
pub mod Life
pub mod Removes
pub mod HangUp
use netevent.Prelude.{
  ℕ, Bool, true, false, List, [], ◌∷◌, Option, none, some, Bytes, ◌==◌, if◌then◌else◌, ltb,
}
use netevent.Socket
use netevent.Socket.{
  SocketError, fine, thrown, out_of_bounds, closed_socket, listen_unix, close, unlinked,
}
use netevent.Text.Lexer.{c_string}
use netevent.Options.{Arguments, Parsed, go, leaves, daemon_arguments}
use netevent.Daemon.Map.{assign}
use netevent.Daemon.State.{
  Daemon, Env, Error, Outcome, done, M, ◌>>=◌, ◌>>◌, skip, modify, server, initial,
}
use netevent.Daemon.State as State
use netevent.Daemon.Commands.Dispatch.{source_command_file, run_text}
use netevent.Daemon.Events.{Run}
use netevent.Daemon.Loop.{Polled, polled, interrupted, fails, Revents, serve}

-- What the system answers about the socket of the daemon.
pub record System : Type 0 where
  pub buffer : Bytes
  pub socket_fd : Option ℕ
  pub binds : Bool
  pub listens : Bool

-- The process leaves with a status in front of the socket, throws where the socket fails, or at
-- work, returns 0, or waits in `poll`.
pub data DaemonEnd : Type 0 where
  exits : ℕ → DaemonEnd
  no_socket : SocketError → Socket.State → DaemonEnd
  returns threw waits : Daemon → Socket.State → DaemonEnd
  overflows out_of_fuel : DaemonEnd

abbrev pub sigchld : ℕ
sigchld = 17

-- `signull`
unfoldable pub on_signal : ℕ → Daemon → Daemon
on_signal sig d = if sig == sigchld then d else record d { quit = true }

abbrev pub signalled : Option ℕ → Daemon → Daemon
signalled none d = d
signalled (some sig) d = on_signal sig d

-- The end of `cmd_daemon`.
unfoldable pub shut_down : Daemon → Daemon
shut_down d = record d { remove_queue = []; callbacks = []; clients = [] }

-- `for (auto file: command_files) sourceCommandFile(-1, file);`
unfoldable pub source_all : Env → Run → List Bytes → M (Unit {0})
unfolding source_command_file
source_all env run [] = skip
source_all env run (file ∷ files) =
    source_command_file env run none (c_string file) >> source_all env run files

-- From the callbacks of the socket on.
unfoldable pub run_daemon : Env → Run → ℕ → List Bytes → List Polled → M (List ℕ)
unfolding source_all serve
run_daemon env run fd files answers = do
  modify (λ d. record d { callbacks = assign ltb fd server d.callbacks })
  source_all env run files
  serve env run answers (fd ∷ [])

-- Where the loop ends, the socket goes out of scope.
abbrev pub loop_left : Bool → Daemon → Socket.State → DaemonEnd
loop_left true d s = returns (shut_down d) (close s)
loop_left false d s = waits d s

unfoldable pub ended : Option ℕ → Socket.State → Outcome (List ℕ) → DaemonEnd
unfolding on_signal shut_down close
ended sig s (State.done pfds d) = loop_left (signalled sig d).quit (signalled sig d) s
ended sig s (State.thrown e d) = threw d (close s)
ended sig s State.out_of_fuel = out_of_fuel

module _ (env : Env) (depth : ℕ) (y : System) where
  abbrev pub on_descriptor :
      List Bytes → List Polled → Option ℕ → Socket.State → Option ℕ → DaemonEnd
  on_descriptor files answers sig s none = no_socket Socket.listen_failed s
  on_descriptor files answers sig s (some fd) =
      ended sig s (run_daemon env (run_text env depth) fd files answers initial)

  unfoldable pub with_server : List Bytes → List Polled → Option ℕ → Socket.Result → DaemonEnd
  unfolding run_daemon ended
  with_server files answers sig out_of_bounds = overflows
  with_server files answers sig (thrown e s) = no_socket e (close s)
  with_server files answers sig (fine s) = on_descriptor files answers sig s s.socket.fd

  -- `server.listenUnix<…>(…)`, behind the `::unlink` of a path.
  unfoldable pub on_name : Bytes → Socket.Result
  unfolding listen_unix
  on_name [] =
      listen_unix false [] y.buffer y.socket_fd y.binds y.listens
        (record { socket = closed_socket; calls = unlinked [] ∷ [] })
  on_name (c ∷ name) =
      if c == b'@'
      then listen_unix true name y.buffer y.socket_fd y.binds y.listens
          (record { socket = closed_socket; calls = [] })
      else listen_unix false (c ∷ name) y.buffer y.socket_fd y.binds y.listens
          (record { socket = closed_socket; calls = unlinked (c ∷ name) ∷ [] })

  abbrev pub with_arguments : List Polled → Option ℕ → Parsed (List Bytes × Bytes) → DaemonEnd
  with_arguments answers sig (leaves status) = exits status
  with_arguments answers sig (go (files, name)) =
      with_server files answers sig (on_name (c_string name))

  -- `cmd_daemon`
  unfoldable pub cmd_daemon : Arguments → List Polled → Option ℕ → DaemonEnd
  unfolding with_server on_name daemon_arguments
  cmd_daemon a answers sig = with_arguments answers sig (daemon_arguments a)
