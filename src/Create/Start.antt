-- ===== src/Create/Start.antt =====
-- The start of `netevent create` (main.cpp, `cmd_create` behind its options): `--connect`, the fork
-- behind it, `--listen` and `--daemonize`. The answers of the system are a parameter; sockets are
-- those of Socket, before the end of the function closes them.
pub mod Sockets
pub mod Connect
use netevent.Prelude.{
  ℕ, Bool, true, false, not, ◌&&◌, ◌||◌, List, [], ◌∷◌, Option, none, some, Bytes, ◌==◌,
  if◌then◌else◌,
}
use netevent.Socket.{
  Socket, State, SocketError, path_too_long, accept_failed, fine, thrown, out_of_bounds,
  closed_socket, connect_unix, listen_unix, accept, release, close, is_open,
}
use netevent.Socket
use netevent.Options.Create.{CreateOptions, is_some}

abbrev pub econnrefused : ℕ
econnrefused = 111

pub data Fork : Type 0 where
  fork_failed child parent : Fork

-- What `::socket` and `::connect` of the attempt to connect answer, with the errno of the one that
-- fails, the ends of `::pipe`, `::fork`, the calls for the socket that listens, `::daemon` and
-- `::accept4`; and what stands in an address before it is filled.
pub record System : Type 0 where
  pub buffer : Bytes
  pub connect_fd : Option ℕ
  pub connects : Bool
  pub errno : ℕ
  pub pipe : Option (ℕ × ℕ)
  pub fork : Fork
  pub listen_fd : Option ℕ
  pub binds : Bool
  pub listens : Bool
  pub daemonizes : Bool
  pub accepted : Option ℕ

pub data StartError : Type 0 where
  socket_error : SocketError → StartError
  pipe_error fork_error daemon_error : StartError

-- The process copies its input to a descriptor, or receives packets from one, with clients behind
-- it if a socket listens, or throws.
pub data Start : Type 0 where
  copies : ℕ → State → Start
  receives : ℕ → Bool → State → Start
  refuses : StartError → State → Start
  overflows : Start

-- A part of the start ends it or goes on, with `inhandle`.
pub data Phase : Type 0 where
  ends : Start → Phase
  goes_on : Option ℕ → State → Phase

-- A name in front of which stands `@` is abstract.
abbrev pub is_abstract : Bytes → Bool
is_abstract [] = false
is_abstract (c ∷ name) = c == b'@'

abbrev pub address_name : Bytes → Bytes
address_name [] = []
address_name (c ∷ name) = if c == b'@' then name else c ∷ name

-- `ex.error() == ECONNREFUSED` in the handler of ErrnoException; a path that is too long is another
-- exception.
abbrev pub was_refused : ℕ → SocketError → Bool
was_refused errno path_too_long = false
was_refused errno _ = errno == econnrefused

module _ (y : System) where
  -- The pipe and the fork: the parent copies its input into the pipe, and the child reads it.
  unfoldable pub forked : State → ℕ × ℕ → Fork → Phase
  forked s (r, w) fork_failed = ends (refuses fork_error s)
  forked s (r, w) parent = ends (copies w s)
  forked s (r, w) child = goes_on (some r) s

  unfoldable pub pipe_phase : State → Option (ℕ × ℕ) → Phase
  unfolding forked
  pipe_phase s none = ends (refuses pipe_error s)
  pipe_phase s (some p) = forked s p y.fork

  -- `if (outhandle)`
  unfoldable pub connected : State × Option ℕ → Phase
  unfolding pipe_phase
  connected (s, some fd) = ends (copies fd s)
  connected (s, none) = pipe_phase s y.pipe

  -- `try { … } catch (const ErrnoException& ex) { … }`
  unfoldable pub tried : Bool → Socket.Result → Phase
  unfolding connected pipe_phase release
  tried daemonize out_of_bounds = ends overflows
  tried daemonize (fine s) = connected (release s)
  tried daemonize (thrown e s) =
      if not daemonize || not (was_refused y.errno e)
      then ends (refuses (socket_error e) s)
      else pipe_phase s y.pipe

  -- `if (optConnect)`
  unfoldable pub connect_phase : CreateOptions → Bytes → State → Phase
  unfolding tried connect_unix
  connect_phase o name s =
      if o.connect
      then tried o.daemonize
          (connect_unix (is_abstract name) (address_name name) y.buffer y.connect_fd y.connects s)
      else goes_on none s

  -- The end of `if (optListen)`: the socket is closed if the first client is the last one.
  unfoldable pub received : Bool → ℕ → State → Start
  unfolding close is_open
  received end_on_close infd s =
      let t = if end_on_close then close s else s in receives infd (is_open t) t

  unfoldable pub accepted_from : Bool → Socket.Result × Option ℕ → Start
  unfolding received
  accepted_from end_on_close (fine s, some fd) = received end_on_close fd s
  accepted_from end_on_close (fine s, none) = refuses (socket_error accept_failed) s
  accepted_from end_on_close (thrown e s, fd) = refuses (socket_error e) s
  accepted_from end_on_close (out_of_bounds, fd) = overflows

  -- `if (!inhandle)`
  unfoldable pub accept_phase : Bool → Option ℕ → State → Start
  unfolding received accepted_from accept
  accept_phase end_on_close (some infd) s = received end_on_close infd s
  accept_phase end_on_close none s = accepted_from end_on_close (accept y.accepted s)

  -- `if (optDaemonize) doDaemonize(…)`, in front of what is left.
  abbrev pub daemonized : Bool → Start → State → Start
  daemonized daemonize rest s =
      if daemonize && not y.daemonizes then refuses daemon_error s else rest

  -- `if (optListen)`, the daemonization and the first client.
  unfoldable pub listening : CreateOptions → Option ℕ → Socket.Result → Start
  unfolding accept_phase
  listening o inhandle out_of_bounds = overflows
  listening o inhandle (thrown e s) = refuses (socket_error e) s
  listening o inhandle (fine s) = daemonized o.daemonize (accept_phase o.end_on_close inhandle s) s

  unfoldable pub listen_phase : CreateOptions → Bytes → Phase → Start
  unfolding listening listen_unix
  listen_phase o name (ends r) = r
  listen_phase o name (goes_on inhandle s) =
      listening o inhandle (
        listen_unix (is_abstract name) (address_name name) y.buffer y.listen_fd y.binds y.listens s)

  -- Without `--listen` the packets come from the standard input.
  abbrev pub start_from : CreateOptions → Option Bytes → Start
  start_from o none =
      daemonized o.daemonize (receives 0 false (record { socket = closed_socket; calls = [] }))
        (record { socket = closed_socket; calls = [] })
  start_from o (some name) =
      listen_phase o name (connect_phase o name (record { socket = closed_socket; calls = [] }))

  unfoldable pub start_create : CreateOptions → Start
  unfolding connect_phase listen_phase
  start_create o = start_from o o.listen
