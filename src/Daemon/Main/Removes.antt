-- ===== src/Daemon/Main/Removes.antt =====
-- The file of the daemon's socket.
use netevent.Prelude.{
  ℕ, ◌<◌, ◌≡◌, ◌≢◌, refl, ap, sym, subst, ◌∙◌, Bool, true, false, List, [], ◌∷◌, ◌++◌, Option, some,
  Bytes, ◌==◌, if◌then◌else◌, length, arith,
}
use netevent.Socket
use netevent.Socket.Path.{listen_unix-filled}
use netevent.Socket.Address.{behind, fill_path-file}
use netevent.Socket.{closed, listened, bound, Call, unlinked, closed_socket, path_size}
use netevent.Text.Lexer.{c_string}
use netevent.Options.{Arguments, go, daemon_arguments}
use netevent.Daemon.State.{
  Daemon, Env, M, Outcome, done, Callback, server, initial, some_or, bind-done,
}
use netevent.Daemon.State as State
use netevent.Daemon.Commands.Dispatch.{run_text}
use netevent.Daemon.Loop.{Polled}
use netevent.Daemon.Main.{
  System, DaemonEnd, exits, no_socket, returns, threw, waits, overflows, out_of_fuel, signalled,
  run_daemon, ended, loop_left, with_server, on_name, with_arguments, cmd_daemon,
}

-- What the socket of the daemon did until it listens, latest first.
abbrev pub opening_calls : Bytes → ℕ → Bytes → List Call
opening_calls path fd name = listened fd ∷ bound fd name ∷ unlinked path ∷ unlinked path ∷ []

-- What comes behind the work of the daemon: the descriptor of its socket was closed, and then its
-- file was removed.
abbrev pub Removes : Bytes → ℕ → DaemonEnd → Type 0
Removes path fd (returns d s) =
    (name : Bytes) × (s ≡ record {
      socket = closed_socket;
      calls = unlinked path ∷ closed fd ∷ opening_calls path fd name;
    })
Removes path fd (threw d s) =
    (name : Bytes) × (s ≡ record {
      socket = closed_socket;
      calls = unlinked path ∷ closed fd ∷ opening_calls path fd name;
    })
Removes path fd (waits d s) =
    (s.socket.fd ≡ some fd) × (s.socket.path ≡ path) × (s.socket.unlink ≡ true)
Removes name fd (no_socket e s) = ⊥
Removes name fd (exits status) = ⊥
Removes name fd overflows = ⊥
Removes name fd out_of_fuel = Unit {0}

-- The socket of a daemon that listens at a path.
abbrev listening_at : Bytes → ℕ → Bytes → Socket.State
listening_at path fd name = record {
  socket = record { fd = some fd; path = path; unlink = true };
  calls = opening_calls path fd name;
}

loop_left-Removes :
    (b : Bool) (d : Daemon) (c fd : ℕ) (cs name : Bytes)
    → Removes (c ∷ cs) fd (loop_left b d (listening_at (c ∷ cs) fd name))
unfolding Socket.close Socket.forget_path
loop_left-Removes true d c fd cs name = (_, refl)
loop_left-Removes false d c fd cs name = (refl, refl, refl)

ended-Removes :
    (sig : Option ℕ) (o : Outcome (List ℕ)) (c fd : ℕ) (cs name : Bytes)
    → Removes (c ∷ cs) fd (ended sig (listening_at (c ∷ cs) fd name) o)
unfolding ended Socket.close Socket.forget_path
ended-Removes sig (State.done pfds d) c fd cs name =
    loop_left-Removes (signalled sig d).quit (signalled sig d) c fd cs name
ended-Removes sig (State.thrown e d) c fd cs name = (_, refl)
ended-Removes sig State.out_of_fuel c fd cs name = tt

on_name-listens :
    (env : Env) (depth : ℕ) (y : System) (c fd : ℕ) (cs file : Bytes)
    → c ≢ b'@'
    → length (c ∷ cs) < path_size
    → Socket.fill_path false (c ∷ cs) y.buffer ≡ some file
    → y.socket_fd ≡ some fd
    → y.binds ≡ true
    → y.listens ≡ true
    → on_name env depth y (c ∷ cs)
      ≡ Socket.fine (listening_at (c ∷ cs) fd (Socket.covered false (c ∷ cs) file))
unfolding on_name Socket.close
on_name-listens env depth y c fd cs file at h f hf b l =
    let plain : c == b'@' ≡ false = ground arith in
    let before : Socket.State = record { socket = closed_socket; calls = unlinked (c ∷ cs) ∷ [] } in
    let listen_call =
      λ (o : Option ℕ) (x y' : Bool). Socket.listen_unix false (c ∷ cs) y.buffer o x y' before in
    ap
      (λ (x : Bool).
        if x
        then Socket.listen_unix true cs y.buffer y.socket_fd y.binds y.listens
            (record { socket = closed_socket; calls = [] })
        else listen_call y.socket_fd y.binds y.listens)
      plain
    ∙ ap (λ (o : Option ℕ). listen_call o y.binds y.listens) hf
    ∙ ap (λ (x : Bool). listen_call (some fd) x y.listens) b
    ∙ ap (λ (x : Bool). listen_call (some fd) true x) l
    ∙ listen_unix-filled false (c ∷ cs) y.buffer file fd before (unlinked (c ∷ cs) ∷ []) refl f h

-- The daemon removes the file of its socket. If it gets to listen at a path, then, whether it ends
-- with 0 or by an exception, also by one of `poll`, the descriptor of its socket is closed and the
-- file is removed behind that; while it waits, the socket keeps its descriptor and the path to be
-- removed. The path fits the address, and commands are not nested deeper than the depth that is
-- given.
pub cmd_daemon-Removes :
    (env : Env) (depth : ℕ) (y : System) (a : Arguments) (answers : List Polled) (sig : Option ℕ)
    (files : List Bytes) (name : Bytes) (c fd : ℕ) (cs : Bytes)
    → daemon_arguments a ≡ go (files, name)
    → c_string name ≡ c ∷ cs
    → c ≢ b'@'
    → length y.buffer ≡ path_size
    → length (c ∷ cs) < path_size
    → y.socket_fd ≡ some fd
    → (y.binds ≡ true) × (y.listens ≡ true)
    → Removes (c ∷ cs) fd (cmd_daemon env depth y a answers sig)
unfolding cmd_daemon with_server on_name
cmd_daemon-Removes env depth y a answers sig files name c fd cs ha hn at l h hf (binds, listens) =
    let file : Bytes = (c ∷ cs) ++ (0 ∷ behind (length (c ∷ cs)) y.buffer) in
    subst (Removes (c ∷ cs) fd)
      (sym (
        ap (with_arguments env depth y answers sig) ha
        ∙ ap (λ (n : Bytes). with_server env depth y files answers sig (on_name env depth y n)) hn
        ∙ ap (with_server env depth y files answers sig) (
            on_name-listens env depth y c fd cs file at h (fill_path-file (c ∷ cs) y.buffer l h) hf
              binds listens)))
      (ended-Removes sig (run_daemon env (run_text env depth) fd files answers initial) c fd cs
        (Socket.covered false (c ∷ cs) file))
