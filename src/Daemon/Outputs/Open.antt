-- ===== src/Daemon/Outputs/Open.antt =====
-- How an output is opened (daemon.cpp, `addOutput_Open`, `addOutput_Exec`, `addOutput_Unix` and their
-- choice in `addOutput`): a file, the input of a shell, or a socket. The handles are those of Handle;
-- `handle` is the variable 0, and the local variables are 1 and 2; a socket is that of Socket, and what
-- its calls close, its end included, is closed there. What the system answers is a
-- parameter; the calls of the child in front of its `exec` are taken to work.
pub mod Drops
pub mod Pipes
pub mod Sockets
pub mod Safe
use netevent.Prelude.{
  ℕ, Bool, true, false, not, ◌&&◌, List, [], ◌∷◌, Option, none, some, Bytes, ◌==◌, if◌then◌else◌,
  codes,
}
use netevent.Handle.{
  Handles, with_fd, system_open, system_close, construct, construct_default, acquire, close,
  assign_moved, destroy,
}
use netevent.Socket
use netevent.Socket.{
  Call, closed, listened, unlinked, bound, connected, closed_socket, connect_unix, release,
}
use netevent.Create.Start.{Fork, fork_failed, child, parent, is_abstract, address_name}

-- What `::open` and the two calls of `::fcntl` answer for a file; `::pipe2`, `::fork` and, in the
-- child, `::dup2` for a shell; and the system calls for a socket.
pub record System : Type 0 where
  pub file : Option ℕ
  pub gets_flags : Bool
  pub sets_flags : Bool
  pub pipe : Option (ℕ × ℕ)
  pub fork : Fork
  pub buffer : Bytes
  pub socket_fd : Option ℕ
  pub connects : Bool

-- A function returns the handle in a variable or throws, or the process is the child that becomes
-- the shell.
pub data Opened : Type 0 where
  opened : ℕ → Handles → Opened
  threw : Handles → Opened
  shell : Handles → Opened
  overflows : Opened

-- `strncmp(path, prefix, sizeof(prefix)-1) == 0`, and what stands behind the prefix.
unfoldable pub behind_prefix : Bytes → Bytes → Option Bytes
behind_prefix [] path = some path
behind_prefix (c ∷ cs) [] = none
behind_prefix (c ∷ cs) (d ∷ path) = if c == d then behind_prefix cs path else none

-- `handle = addOutput_…(…);`, and the end of what was returned.
unfoldable pub taken : Opened → Opened
unfolding assign_moved destroy
taken (opened i s) = opened 0 (destroy i (assign_moved 0 i s))
taken (threw s) = threw (destroy 0 s)
taken (shell s) = shell s
taken overflows = overflows

-- What `::socket` opens, and what the calls of a socket, latest first, close.
abbrev pub opens : Option ℕ → Handles → Handles
opens none s = s
opens (some fd) s = system_open fd s

unfoldable pub closes : List Call → Handles → Handles
unfolding system_close
closes [] s = s
closes (closed fd ∷ calls) s = system_close fd (closes calls s)
closes (listened fd ∷ calls) s = closes calls s
closes (unlinked path ∷ calls) s = closes calls s
closes (bound fd name ∷ calls) s = closes calls s
closes (connected fd name ∷ calls) s = closes calls s

module _ (y : System) where
  -- Behind `::open`.
  abbrev pub with_file : Option ℕ → Handles → Opened
  with_file none s = threw s
  with_file (some fd) s =
      let t = acquire 1 fd s in
      if not y.gets_flags
      then threw (destroy 1 t)
      else if not y.sets_flags
      then threw (destroy 1 t)
      else opened 1 t

  -- `addOutput_Open`
  unfoldable pub add_output_open : Handles → Opened
  unfolding acquire destroy
  add_output_open s = with_file y.file s

  -- `::dup2` of the read end to the standard input, unless it is that.
  abbrev pub dup_to_stdin : ℕ → Handles → Handles
  dup_to_stdin r s = if r == 0 then s else close 1 (system_open 0 s)

  abbrev pub with_fork : Fork → ℕ → Handles → Opened
  with_fork fork_failed r s = threw (destroy 1 (destroy 2 s))
  with_fork child r s = shell (dup_to_stdin r (close 2 s))
  with_fork parent r s = opened 2 (destroy 1 (close 1 s))

  abbrev pub with_pipe : Option (ℕ × ℕ) → Handles → Opened
  with_pipe none s = threw s
  with_pipe (some (r, w)) s = with_fork y.fork r (acquire 2 w (acquire 1 r s))

  -- `addOutput_Exec`
  unfoldable pub add_output_exec : Handles → Opened
  unfolding acquire destroy close
  add_output_exec s = with_pipe y.pipe s

  -- `return socket.intoIOHandle();`, and the end of the socket.
  abbrev pub into_handle : Socket.State × Option ℕ → Handles → Opened
  into_handle (t, o) s = opened 1 (closes (Socket.close t).calls (construct 1 o s))

  -- What the socket did and its end, in which it closes the descriptor that it still has.
  abbrev pub with_socket : Socket.Result → Handles → Opened
  with_socket Socket.out_of_bounds s = overflows
  with_socket (Socket.thrown e t) s = threw (closes (Socket.close t).calls s)
  with_socket (Socket.fine t) s = into_handle (release t) s

  -- `addOutput_Unix`, with a socket that has no descriptor in front of `::socket`.
  unfoldable pub add_output_unix : Bytes → Handles → Opened
  unfolding construct closes connect_unix release Socket.close
  add_output_unix path s =
      with_socket
        (connect_unix (is_abstract path) (address_name path) y.buffer y.socket_fd y.connects
          (record { socket = closed_socket; calls = [] }))
        (opens y.socket_fd s)

  -- The choice in `addOutput`.
  abbrev pub chosen : Option Bytes → Option Bytes → Handles → Opened
  chosen (some command) socket s = add_output_exec s
  chosen none (some path) s = add_output_unix path s
  chosen none none s = add_output_open s

  unfoldable pub open_output : Bytes → Handles → Opened
  unfolding taken add_output_exec add_output_unix add_output_open behind_prefix
  open_output path s = taken (
      chosen (behind_prefix (codes "exec:") path) (behind_prefix (codes "unix:") path)
        (construct_default 0 s))
