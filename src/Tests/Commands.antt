-- ===== src/Tests/Commands.antt =====
-- Examples for the start of `netevent create`, the life of `netevent daemon`, and `netevent command`.
use netevent.Prelude.{
  ℕ, ◌≡◌, ◌≢◌, ◌⊎◌, refl, inr, true, false, not, [], ◌∷◌, none, some, Bytes, codes, arith,
  replicate, ◌==◌, ltb,
}
use netevent.Io.{got, delivered}
use netevent.Device.Transfer.Spec.{concat}
use netevent.Options.{Arguments, go, daemon_arguments}
use netevent.Text.Lexer.{c_string, is_white}
use netevent.Text.Lexer.Words.{ArePlain}
use netevent.Daemon.Map.{find}
use netevent.Create.Start.{
  System, parent, child, copies, receives, refuses, socket_error, econnrefused, start_create,
}
use netevent.Create.Start.Sockets.{Connects, Listens}
use netevent.Create.Start.Connect.{start_create-connects}
use netevent.Socket.{
  State, connect_failed, fine, connected, closed_socket, connect_unix, open_unix_stream, fill_path,
  covered, close,
}
use netevent.Daemon.State.{Daemon, done, server, initial}
use netevent.Daemon.Loop.{polled, interrupted, Revents, prepare, serve}
use netevent.Daemon.Commands.Dispatch.{run_text, client_commands}
use netevent.Daemon.Main
use netevent.Daemon.Main.{cmd_daemon}
use netevent.Daemon.Main.Life.{EndValid, cmd_daemon-EndValid}
use netevent.Daemon.Main.Removes.{Removes, cmd_daemon-Removes}
use netevent.Daemon.Main.HangUp.{serve-hangs_up}
use netevent.Client
use netevent.Client.{cmd_command, status}
use netevent.Client.Delivery.{cmd_command-run_text}
use netevent.Handle.{Handles}
use netevent.Daemon.Outputs.Open
use netevent.Daemon.Outputs.Open.{open_output}
use netevent.Daemon.Outputs.Open.Safe.{Safe, Fresh, open_output-Safe}
use mathlib.Core.Option.{none-ne-some}
use netevent.Tests.Daemons.{world}
use netevent.Tests.Arguments.{chosen}

abbrev pub start_system : System
start_system = record {
  buffer = replicate 108 1;
  connect_fd = some 3;
  connects = false;
  errno = 111;
  pipe = some (4, 5);
  fork = child;
  listen_fd = some 6;
  binds = true;
  listens = true;
  daemonizes = true;
  accepted = none;
}

start_create-connects_example :
    (start_system.connects ≡ true
      → (s : State) × (start_create start_system chosen ≡ copies 3 s) × Connects 3 s)
    × (start_system.connects ≡ false
        → start_system.errno ≡ econnrefused
        → chosen.daemonize ≡ true
        → start_system.fork ≡ parent
        → (s : State) × (start_create start_system chosen ≡ copies 5 s) × (s.calls ≡ []))
    × (start_system.connects ≡ false
        → start_system.errno ≡ econnrefused
        → chosen.daemonize ≡ true
        → start_system.fork ≡ child
        → (s : State) × (start_create start_system chosen ≡ receives 4 (not chosen.end_on_close) s)
          × Listens true (codes "net") 3 6 chosen.end_on_close s)
    × (start_system.connects ≡ false
        → (start_system.errno ≢ econnrefused) ⊎ (chosen.daemonize ≡ false)
        → (s : State) × (start_create start_system chosen ≡ refuses (socket_error connect_failed) s)
          × (s.calls ≡ []))
start_create-connects_example =
    start_create-connects start_system chosen (codes "@net") 3 refl refl refl (omega arith) refl 4 5
      6 refl refl (refl, refl, refl)

abbrev daemon_system : Main.System
daemon_system = record {
  buffer = replicate 108 1;
  socket_fd = some 3;
  binds = true;
  listens = true;
}

abbrev daemon_arguments_given : Arguments
daemon_arguments_given = record {
  results = (b's', codes "setup.ne2") ∷ [];
  operands = codes "net.sock" ∷ [];
}

abbrev hup_of_server : ℕ → Revents
hup_of_server fd = record { err = false; hup = fd == 3; readable = true }

cmd_daemon-EndValid_example :
    EndValid
      (cmd_daemon world 3 daemon_system daemon_arguments_given (polled hup_of_server ∷ []) none)
cmd_daemon-EndValid_example =
    cmd_daemon-EndValid world 3 daemon_system daemon_arguments_given (polled hup_of_server ∷ [])
      none

arguments_read :
    daemon_arguments daemon_arguments_given ≡ go (codes "setup.ne2" ∷ [], codes "net.sock")
unfolding daemon_arguments
arguments_read = refl

name_read : c_string (codes "net.sock") ≡ codes "net.sock"
unfolding c_string
name_read = refl

cmd_daemon-Removes_example :
    Removes
      (codes "net.sock")
      3
      (cmd_daemon world 3 daemon_system daemon_arguments_given (polled hup_of_server ∷ []) none)
cmd_daemon-Removes_example =
    cmd_daemon-Removes world 3 daemon_system daemon_arguments_given (polled hup_of_server ∷ []) none
      (codes "setup.ne2" ∷ []) (codes "net.sock") b'n' 3 (codes "et.sock") arguments_read name_read
      (omega arith) refl (omega arith) refl (refl, refl)

abbrev serving : Daemon
serving = record initial { callbacks = (3, server) ∷ [] }

nothing_to_do : prepare world (run_text world 3) (3 ∷ []) serving ≡ done (3 ∷ []) serving
unfolding prepare
nothing_to_do = refl

serving_found : find ltb 3 serving.callbacks ≡ some server
unfolding find
serving_found = refl

serve-hangs_up_example :
    serve world (run_text world 3) (polled hup_of_server ∷ interrupted ∷ []) (3 ∷ []) serving
    ≡ done (3 ∷ []) (record serving { quit = true })
serve-hangs_up_example =
    serve-hangs_up world (run_text world 3) hup_of_server (interrupted ∷ []) 3 [] [] serving serving
      refl nothing_to_do refl serving_found (inr refl)

abbrev client_system : Client.System
client_system = record {
  buffer = replicate 108 1;
  socket_fd = some 3;
  connects = true;
  sends = true;
  shuts_down = true;
  reads = got (codes "Ok.\n") ∷ got [] ∷ [];
  takes = λ n. true;
}

abbrev connected_socket : State
connected_socket = record {
  socket = record { fd = some 3; path = []; unlink = false };
  calls = connected 3 (0 ∷ codes "net") ∷ [];
}

net_connects :
    connect_unix true
      (codes "net")
      (replicate 108 1)
      (some 3)
      true
      (record { socket = closed_socket; calls = [] })
    ≡ fine connected_socket
unfolding connect_unix open_unix_stream fill_path covered close
net_connects = refl

use_pc-ArePlain : ArePlain (codes "use" ∷ codes "pc" ∷ [])
unfolding is_white
use_pc-ArePlain = ground arith

cmd_command-run_text_example :
    let r = cmd_command client_system (codes "@net" ∷ codes "use" ∷ codes "pc" ∷ []) in
    (line : Bytes) × (r.sent ≡ some line)
    × (run_text world 3 (some 7) line
        ≡ client_commands world (run_text world 2) (some 7) ((codes "use" ∷ codes "pc" ∷ []) ∷ []))
    × (concat r.answer ≡ delivered client_system.reads)
    × (r.ended ≡ status 0)
cmd_command-run_text_example =
    cmd_command-run_text client_system world 2 7 b'@' (codes "net") (codes "use") (codes "pc" ∷ [])
      connected_socket use_pc-ArePlain (omega arith) net_connects refl refl (λ i. refl) tt

-- A daemon that has the first three descriptors, and a shell that it starts.
abbrev three_open : Handles
three_open = record { fd = λ i. none; opened = λ fd. ltb fd 3; bad_closes = 0 }

abbrev shell_system : Open.System
shell_system = record {
  file = none;
  gets_flags = true;
  sets_flags = true;
  pipe = some (7, 8);
  fork = parent;
  buffer = replicate 108 1;
  socket_fd = none;
  connects = true;
}

shell_system-Fresh : Fresh shell_system three_open
shell_system-Fresh = record {
  file_fresh = λ fd e. absurd (none-ne-some fd e);
  pipe_fresh = λ r w e. ground arith;
  socket_fresh = λ fd e. absurd (none-ne-some fd e);
}

open_output-Safe_example : Safe three_open (open_output shell_system (codes "exec:cat") three_open)
open_output-Safe_example =
    open_output-Safe shell_system (codes "exec:cat") three_open shell_system-Fresh
