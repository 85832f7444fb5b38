-- ===== src/Daemon/Outputs/Open/Safe.antt =====
-- No descriptor is lost where an output is opened.
use netevent.Prelude.{
  subst, ℕ, ◌≡◌, refl, sym, ap, ◌∙◌, true, false, Option, none, some, Bytes, ◌==◌, codes, arith,
}
use netevent.Handle.{
  Handles, with_fd, system_open, construct, construct_default, acquire, close, close_fd,
  assign_moved, destroy,
}
use netevent.Socket
use netevent.Create.Start.{is_abstract, address_name, Fork, fork_failed, child, parent}
use netevent.Daemon.Outputs.Open.{
  System, opens, closes, Opened, opened, threw, shell, overflows, add_output_open, with_fork,
  with_pipe, add_output_exec, into_handle, with_socket, add_output_unix, taken, chosen, open_output,
  behind_prefix,
}
use netevent.Daemon.Outputs.Open.Drops.{
  Same, Adds, open-close-Same, open-fd, system_close-fd, acquire-Adds, destroy-empty, acquire-other,
  destroy-other,
}
use netevent.Daemon.Outputs.Open.Sockets.{Quiet, Holds, connect_unix-Holds, close-closes}
use mathlib.Core.Option.{none-ne-some}
use netevent.Daemon.Outputs.Open.Pipes.{
  Ready, with_file-Ready, failed-Ready, parent-Ready, child-Ready,
}

-- Where a handle is returned, it holds the one descriptor that is open now and was not before; where
-- an exception is thrown, and so is nothing; and the shell has its input and no other new descriptor.
abbrev pub Safe : Handles → Opened → Type 0
Safe s (opened i t) = (fd : ℕ) × (t.fd i ≡ some fd) × Adds fd s t
Safe s (threw t) = Same s t
Safe s (shell t) = Adds 0 s t
Safe s overflows = Unit {0}

-- The system returns descriptors that are not open.
pub record Fresh (y : System) (s : Handles) : Type 0 where
  pub file_fresh : (fd : ℕ) → y.file ≡ some fd → s.opened fd ≡ false
  pub pipe_fresh :
      (r w : ℕ)
      → y.pipe ≡ some (r, w)
      → (s.opened r ≡ false) × (s.opened w ≡ false) × (r == w ≡ false)
  pub socket_fresh : (fd : ℕ) → y.socket_fd ≡ some fd → s.opened fd ≡ false

module _ (y : System) (s : Handles) (fresh_ones : Fresh y s) where
  with_fork-Ready :
      (f : Fork) (r w : ℕ) (fr : s.opened r ≡ false) (fw : s.opened w ≡ false)
      (apart : r == w ≡ false)
      → Ready s (with_fork y f r (acquire 2 w (acquire 1 r s)))
  with_fork-Ready fork_failed r w fr fw apart = failed-Ready y s r w fr fw apart
  with_fork-Ready child r w fr fw apart = child-Ready y s r w fr fw apart
  with_fork-Ready parent r w fr fw apart = parent-Ready y s r w fr fw apart

  with_pipe-Ready : (p : Option (ℕ × ℕ)) → y.pipe ≡ p → Ready s (with_pipe y p s)
  with_pipe-Ready none e = (((λ n. refl), refl), refl)
  with_pipe-Ready (some (r, w)) e =
      let (fr, fw, apart) = fresh_ones.pipe_fresh r w e in with_fork-Ready y.fork r w fr fw apart

  into_handle-Ready :
      (fd : ℕ) (t : Socket.State)
      → t.socket.fd ≡ some fd
      → Quiet t.calls
      → Ready s (into_handle y (Socket.release t) (system_open fd s))
  unfolding Socket.release Socket.close acquire
  into_handle-Ready fd t h q =
      let (held, a) = acquire-Adds 1 fd s in
      let same : closes t.calls (construct 1 t.socket.fd (system_open fd s)) ≡ acquire 1 fd s =
        q (construct 1 t.socket.fd (system_open fd s))
        ∙ ap (λ (o : Option ℕ). construct 1 o (system_open fd s)) h in
      subst (λ (u : Handles). Ready s (opened 1 u)) (sym same)
        (fd, held, a, acquire-other 1 0 fd s refl, refl)

  thrown-Ready :
      (fd : ℕ) (t : Socket.State)
      → y.socket_fd ≡ some fd
      → t.socket.fd ≡ some fd
      → Quiet t.calls
      → Ready s (threw (closes (Socket.close t).calls (system_open fd s)))
  thrown-Ready fd t e h q =
      subst (λ (u : Handles). Ready s (threw u)) (sym (close-closes fd t (system_open fd s) h q))
        (
          open-close-Same fd s (fresh_ones.socket_fresh fd e),
          system_close-fd fd 0 (system_open fd s) ∙ open-fd fd 0 s,
        )

  with_socket-Ready :
      (o : Option ℕ) (r : Socket.Result)
      → y.socket_fd ≡ o
      → Holds o r
      → Ready s (with_socket y r (opens o s))
  unfolding Socket.close
  with_socket-Ready o Socket.out_of_bounds e h = tt
  with_socket-Ready none (Socket.thrown x t) e (h, q) =
      subst (λ (u : Handles). Ready s (threw u))
        (sym (ap (λ (a : Option ℕ). closes (Socket.close_fd a t).calls s) h ∙ q s))
        (((λ n. refl), refl), refl)
  with_socket-Ready (some fd) (Socket.thrown x t) e (h, q) = thrown-Ready fd t e h q
  with_socket-Ready none (Socket.fine t) e (fd, n, h, q) = absurd (none-ne-some fd n)
  with_socket-Ready (some k) (Socket.fine t) e (fd, n, h, q) = into_handle-Ready k t (h ∙ sym n) q

  chosen-Ready : (command path : Option Bytes) → Ready s (chosen y command path s)
  unfolding add_output_exec add_output_unix add_output_open
  chosen-Ready (some command) path = with_pipe-Ready y.pipe refl
  chosen-Ready none (some path) =
      with_socket-Ready y.socket_fd _ refl
        (connect_unix-Holds (is_abstract path) (address_name path) y.buffer y.socket_fd y.connects)
  chosen-Ready none none = with_file-Ready y s y.file fresh_ones.file_fresh

-- The assignment to the empty variable.
moved-in :
    (i fd : ℕ) (t : Handles)
    → t.fd 0 ≡ none
    → t.fd i ≡ some fd
    → 0 == i ≡ false
    → ((destroy i (assign_moved 0 i t)).fd 0 ≡ some fd) × Same t (destroy i (assign_moved 0 i t))
unfolding assign_moved close
moved-in i fd t empty h other =
    let u : Handles = with_fd i none (with_fd 0 (some fd) t) in
    let moved : assign_moved 0 i t ≡ u =
      ap (λ (o : Option ℕ). let v = close_fd 0 o t in with_fd i none (with_fd 0 (v.fd i) v)) empty
      ∙ ap (λ (o : Option ℕ). with_fd i none (with_fd 0 o t)) h in
    let self : i == i ≡ true = ground arith in
    let held : u.fd 0 ≡ some fd = rw other refl in
    rw moved (destroy-other i 0 u other ∙ held, destroy-empty i u (rw self refl))

taken-Safe : (s : Handles) (o : Opened) → s.fd 0 ≡ none → Ready s o → Safe s (taken o)
unfolding taken
taken-Safe s (opened i t) e (fd, h, (o, b), k, other) =
    let (h0, (o0, b0)) = moved-in i fd t (k ∙ e) h other in (fd, h0, ((λ n. o0 n ∙ o n), b0 ∙ b))
taken-Safe s (threw t) e ((o, b), k) =
    let (o0, b0) = destroy-empty 0 t (k ∙ e) in ((λ n. o0 n ∙ o n), b0 ∙ b)
taken-Safe s (shell t) e a = a
taken-Safe s overflows e a = tt

-- Where an output is opened, as a file, as the input of a shell or as a socket, no descriptor is lost
-- and none is closed twice: if it works, the handle holds the only descriptor that is open now and
-- was not before; if it throws, wherever that is, the open descriptors are those of before; and the
-- child that becomes the shell has its standard input and no end of the pipe besides. The system
-- returns descriptors that are not open, and two for a pipe.
pub open_output-Safe :
    (y : System) (path : Bytes) (s : Handles) → Fresh y s → Safe s (open_output y path s)
unfolding open_output construct_default
open_output-Safe y path s f =
    let empty : Handles = with_fd 0 none s in
    let f' : Fresh y empty = record {
      file_fresh = f.file_fresh;
      pipe_fresh = f.pipe_fresh;
      socket_fresh = f.socket_fresh;
    } in
    taken-Safe empty
      (chosen y (behind_prefix (codes "exec:") path) (behind_prefix (codes "unix:") path) empty)
      refl
      (chosen-Ready y empty f' (behind_prefix (codes "exec:") path)
        (behind_prefix (codes "unix:") path))
