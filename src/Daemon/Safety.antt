-- ===== src/Daemon/Safety.antt =====
-- Where exceptions end (daemon.cpp, `processCommandQueue` and `announceDevice`).
use netevent.Prelude.{
  arith, ℕ, suc, ◌≡◌, refl, inl, inr, Bool, true, false, List, [], ◌∷◌, Option, none, some, Bytes,
  Bool-cases,
}
use netevent.Daemon.State.{
  Daemon, Env, Error, Reply, Command, Outcome, done, thrown, out_of_fuel, M, ◌>>=◌, ◌>>◌, catch_all,
  error_reply, modify, pure, Input,
}
use netevent.Daemon.Queue.{contains, remove_fd, disconnect_client, to_client}
use netevent.Daemon.Events.{Run}
use netevent.Device.In.{write_ne2_add_device}
use netevent.Daemon.Inputs.{announce_device, announce_to_all, write_all}
use netevent.Daemon.Loop.{run_queued, process_command_queue}

-- An outcome that is not an exception.
unfoldable NoThrow : {A : Type 0} → Outcome A → Type 0
NoThrow (done a d) = Unit {0}
NoThrow (thrown e d) = ⊥
NoThrow out_of_fuel = Unit {0}

bind-NoThrow :
    {A B : Type 0} (o : Outcome A) (m : M A) (f : A → M B) (d : Daemon)
    → m d ≡ o
    → NoThrow o
    → ((a : A) (e : Daemon) → NoThrow (f a e))
    → NoThrow ((m >>= f) d)
unfolding NoThrow
bind-NoThrow (done a e) m f d h n k = rw (h, ◌>>=◌) (k a e)
bind-NoThrow (thrown x e) m f d h n k = absurd n
bind-NoThrow out_of_fuel m f d h n k = rw (h, ◌>>=◌) tt

catch_all-NoThrow :
    {A : Type 0} (o : Outcome A) (m : M A) (handler : Error → M A) (d : Daemon)
    → m d ≡ o
    → ((e : Error) (d' : Daemon) → NoThrow (handler e d'))
    → NoThrow (catch_all m handler d)
unfolding NoThrow
catch_all-NoThrow (done a e) m handler d h k = rw (h, catch_all) tt
catch_all-NoThrow (thrown x e) m handler d h k = rw (h, catch_all) (k x e)
catch_all-NoThrow out_of_fuel m handler d h k = rw (h, catch_all) tt

remove_fd-NoThrow : (fd : ℕ) (d : Daemon) → NoThrow (remove_fd fd d)
unfolding remove_fd NoThrow
remove_fd-NoThrow fd d = elim (Bool-cases (contains d.remove_queue fd)) [
  | inl e ↦ rw e tt
  | inr e ↦ rw e tt
]

to_client-NoThrow :
    (env : Env) (client : Option ℕ) (r : Reply) (d : Daemon) → NoThrow (to_client env client r d)
unfolding to_client disconnect_client NoThrow
to_client-NoThrow env none r d = tt
to_client-NoThrow env (some fd) r d = elim (Bool-cases (env.reply_ok d.calls fd r)) [
  | inl e ↦ rw e tt
  | inr e ↦ rw e (remove_fd-NoThrow fd _)
]

run_queued-NoThrow :
    (env : Env) (run : Run) (cs : List Command) (d : Daemon) → NoThrow (run_queued env run cs d)
unfolding run_queued
run_queued-NoThrow env run [] d = unfold NoThrow in tt
run_queued-NoThrow env run (c ∷ cs) d =
    let one : M (Unit {0}) =
      catch_all (run c.client c.command) (λ e. to_client env c.client (error_reply e)) in
    bind-NoThrow (one d) one (λ _. run_queued env run cs) d refl
      (catch_all-NoThrow (run c.client c.command d) (run c.client c.command)
        (λ e. to_client env c.client (error_reply e)) d refl
        (λ e d'. to_client-NoThrow env c.client (error_reply e) d'))
      (λ a e. run_queued-NoThrow env run cs e)

process_command_queue-NoThrow :
    (env : Env) (run : Run) (d : Daemon) → NoThrow (process_command_queue env run d)
unfolding process_command_queue
process_command_queue-NoThrow env run d =
    bind-NoThrow (run_queued env run d.command_queue d) (run_queued env run d.command_queue)
      (λ _. modify (λ e. record e { command_queue = [] })) d refl
      (run_queued-NoThrow env run d.command_queue d) (λ a e. unfold NoThrow in tt)

thrown-NoThrow :
    {A : Type 0} (o : Outcome A) (e : Error) (d' : Daemon) → NoThrow o → ¬ (o ≡ thrown e d')
unfolding NoThrow
thrown-NoThrow (done a d) e d' n h = ground arith
thrown-NoThrow (thrown x d) e d' n h = n
thrown-NoThrow out_of_fuel e d' n h = ground arith

-- Whatever the queued commands do, working through the queue never ends with an exception.
pub process_command_queue_caught :
    (env : Env) (run : Run) (d d' : Daemon) (e : Error)
    → ¬ (process_command_queue env run d ≡ thrown e d')
process_command_queue_caught env run d d' e =
    thrown-NoThrow (process_command_queue env run d) e d' (process_command_queue-NoThrow env run d)

announce_device-NoThrow :
    (env : Env) (input : Input) (fd : ℕ) (d : Daemon) → NoThrow (announce_device env input fd d)
unfolding announce_device
announce_device-NoThrow env input fd d =
    let writes = write_ne2_add_device (env.evdev d.calls input.device.fd) input.id input.device in
    let sending : M Bool = write_all env fd writes.sent writes.finished >> pure true in
    let dropping : Error → M Bool = λ e. remove_fd fd >> pure false in
    let d' : Daemon = record d { calls = suc d.calls } in
    catch_all-NoThrow (sending d') sending dropping d' refl (λ e d''.
      bind-NoThrow (remove_fd fd d'') (remove_fd fd) (λ _. pure false) d'' refl
        (remove_fd-NoThrow fd d'') (λ a x. unfold NoThrow in tt))

announce_to_all-NoThrow :
    (env : Env) (input : Input) (outputs : List (Bytes × ℕ)) (d : Daemon)
    → NoThrow (announce_to_all env input outputs d)
unfolding announce_to_all
announce_to_all-NoThrow env input [] d = unfold NoThrow in tt
announce_to_all-NoThrow env input ((name, fd) ∷ outputs) d =
    bind-NoThrow (announce_device env input fd d) (announce_device env input fd)
      (λ _. announce_to_all env input outputs) d refl (announce_device-NoThrow env input fd d)
      (λ a e. announce_to_all-NoThrow env input outputs e)

-- Announcing a new device to the outputs never ends with an exception, whatever the device and the
-- outputs answer.
pub announce_to_all_caught :
    (env : Env) (input : Input) (outputs : List (Bytes × ℕ)) (d d' : Daemon) (e : Error)
    → ¬ (announce_to_all env input outputs d ≡ thrown e d')
announce_to_all_caught env input outputs d d' e =
    thrown-NoThrow (announce_to_all env input outputs d) e d'
      (announce_to_all-NoThrow env input outputs d)
