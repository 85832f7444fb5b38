-- ===== src/Daemon/Valid/Keeps/Loop.antt =====
-- The main loop keeps the state valid.
use netevent.Prelude.{ℕ, not, List, [], ◌∷◌, Option, Bytes, ltb}
use netevent.Daemon.Map.{find, erase}
use netevent.Daemon.State.{
  Daemon, Env, M, Command, Callback, ◌>>◌, get, modify, throw, poll_failed, error_reply,
  no_cleanup_callback, callback_map_broken, server, command_client, output_fd, device,
}
use netevent.Daemon.Events.{Run}
use netevent.Daemon.Commands.Dispatch.{run_text}
use netevent.Daemon.Loop.{
  Polled, polled, interrupted, fails, Revents, on_remove, on_lost, on_read, run_removals,
  process_remove_queue, run_queued, process_command_queue, prepare, call_back, dispatch, serve,
}
use netevent.Daemon.Valid.{IsValid}
use netevent.Daemon.Valid.Keeps.{
  Valid, Keeps, Keeps-bind, Keeps-then, Keeps-get, Keeps-if, Keeps-when, Keeps-pure, Keeps-some_or,
  Keeps-catch, Keeps-next_call, keeps_rules,
}
use netevent.Daemon.Valid.Keeps.Queue.{
  to_client-Keeps, remove_fd-Keeps, disconnect_client-Keeps, finish_client_removal-Keeps,
  read_command-Keeps, new_command_client-Keeps,
}
use netevent.Daemon.Valid.Keeps.Inputs.{
  finish_device_removal-Keeps, read_from_device-Keeps, lose_device-Keeps,
}
use netevent.Daemon.Valid.Keeps.Outputs.{finish_output_removal-Keeps}
use netevent.Daemon.Valid.Keeps.Run.{run_text-Keeps}

module _ (env : Env) (run : Run) (run-Keeps : (c : Option ℕ) (t : Bytes) → Keeps (run c t)) where
  on_remove-Keeps : (fd : ℕ) (c : Callback) → Keeps (on_remove env run fd c)
  unfolding on_remove
  on_remove-Keeps fd server = search keeps_rules
  on_remove-Keeps fd command_client = finish_client_removal-Keeps fd
  on_remove-Keeps fd output_fd = finish_output_removal-Keeps env run run-Keeps fd
  on_remove-Keeps fd (device id) = finish_device_removal-Keeps env fd

  on_lost-Keeps : (fd : ℕ) (c : Callback) → Keeps (on_lost env run fd c)
  unfolding on_lost
  on_lost-Keeps fd server = search keeps_rules
  on_lost-Keeps fd command_client = disconnect_client-Keeps fd
  on_lost-Keeps fd output_fd = remove_fd-Keeps fd
  on_lost-Keeps fd (device id) = lose_device-Keeps env run run-Keeps fd

  on_read-Keeps : (fd : ℕ) (c : Callback) → Keeps (on_read env run fd c)
  unfolding on_read
  on_read-Keeps fd server = search (keeps_rules, new_command_client-Keeps) depth 40
  on_read-Keeps fd command_client =
      Keeps-bind _ _ Keeps-next_call (λ n. read_command-Keeps fd (env.read_line n fd))
  on_read-Keeps fd output_fd = remove_fd-Keeps fd
  on_read-Keeps fd (device id) = read_from_device-Keeps env run run-Keeps fd id

  forgotten-Keeps :
      (fd : ℕ) → Keeps (modify (λ d. record d { callbacks = erase ltb fd d.callbacks }))
  forgotten-Keeps fd = search keeps_rules

  run_removals-Keeps : (fds : List ℕ) → Keeps (run_removals env run fds)
  unfolding run_removals
  run_removals-Keeps [] = search keeps_rules
  run_removals-Keeps (fd ∷ fds) = Keeps-bind get _ Keeps-get (λ d.
      Keeps-bind _ _ (Keeps-some_or (find ltb fd d.callbacks) no_cleanup_callback) (λ c.
        Keeps-then _ _ (on_remove-Keeps fd c)
          (Keeps-then _ _ (forgotten-Keeps fd) (run_removals-Keeps fds))))

  process_remove_queue-Keeps : Keeps (process_remove_queue env run)
  unfolding process_remove_queue
  process_remove_queue-Keeps = Keeps-bind get _ Keeps-get (λ d.
      Keeps-then _ _ (run_removals-Keeps d.remove_queue) (record {
        at = λ d v. record {
          removed_once = tt;
          in_order = v.in_order;
          ids_fit = v.ids_fit;
          free_fit = v.free_fit;
          hotkeys_fit = v.hotkeys_fit;
        };
      }))

  run_queued-Keeps : (cs : List Command) → Keeps (run_queued env run cs)
  unfolding run_queued
  run_queued-Keeps [] = search keeps_rules
  run_queued-Keeps (c ∷ cs) =
      Keeps-then _ _
        (Keeps-catch _ _ (run-Keeps c.client c.command)
          (λ e. to_client-Keeps env c.client (error_reply e)))
        (run_queued-Keeps cs)

  process_command_queue-Keeps : Keeps (process_command_queue env run)
  unfolding process_command_queue
  process_command_queue-Keeps =
      Keeps-bind get _ Keeps-get
        (λ d. Keeps-then _ _ (run_queued-Keeps d.command_queue) (search keeps_rules))

  prepare-Keeps : (pfds : List ℕ) → Keeps (prepare env run pfds)
  unfolding prepare
  prepare-Keeps pfds =
      search (keeps_rules, process_command_queue-Keeps, process_remove_queue-Keeps) depth 60

  call_back-Keeps : (fd : ℕ) (c : Callback) (r : Revents) → Keeps (call_back env run fd c r)
  unfolding call_back
  call_back-Keeps fd c r = search (keeps_rules, on_lost-Keeps, on_read-Keeps) depth 60

  dispatch-Keeps : (revents : ℕ → Revents) (fds : List ℕ) → Keeps (dispatch env run revents fds)
  unfolding dispatch
  dispatch-Keeps revents [] = search keeps_rules
  dispatch-Keeps revents (fd ∷ fds) = Keeps-bind get _ Keeps-get (λ d.
      Keeps-bind _ _ (Keeps-some_or (find ltb fd d.callbacks) callback_map_broken) (λ c.
        Keeps-then _ _ (call_back-Keeps fd c (revents fd)) (
          Keeps-bind get _ Keeps-get
            (λ d'. Keeps-when (not d'.quit) _ (dispatch-Keeps revents fds)))))

  polled-Keeps :
      (answer : Polled) (fds : List ℕ) (k : List ℕ → M (List ℕ))
      → ((pfds : List ℕ) → Keeps (k pfds))
      → Keeps {A = List ℕ} (elim answer [
        | interrupted ↦ k fds
        | fails ↦ throw poll_failed
        | polled revents ↦ dispatch env run revents fds >> k fds
      ])
  polled-Keeps interrupted fds k h = h fds
  polled-Keeps fails fds k h = search keeps_rules
  polled-Keeps (polled revents) fds k h = Keeps-then _ _ (dispatch-Keeps revents fds) (h fds)

  pub serve-Keeps : (answers : List Polled) (pfds : List ℕ) → Keeps (serve env run answers pfds)
  unfolding serve
  serve-Keeps [] pfds = search keeps_rules
  serve-Keeps (answer ∷ answers) pfds = Keeps-bind get _ Keeps-get (λ d.
      Keeps-if d.quit _ _ (Keeps-pure pfds) (
        Keeps-bind _ _ (prepare-Keeps pfds) (λ fds. Keeps-bind get _ Keeps-get (λ d'.
          Keeps-if d'.quit _ _ (Keeps-pure fds)
            (polled-Keeps answer fds (serve env run answers) (serve-Keeps answers))))))

-- The state stays valid through the main loop, whatever the events, the clients, their commands and
-- the answers of the system are, and also where an exception ends the loop: no descriptor waits
-- twice for its removal, the inputs are in the order of their names, all identifiers fit 16 bits,
-- and every hotkey has an event type of the kernel's and a device that is there.
pub serve-Valid :
    (env : Env) (n : ℕ) (answers : List Polled) (pfds : List ℕ) (d : Daemon)
    → IsValid d
    → Valid (serve env (run_text env n) answers pfds d)
serve-Valid env n answers pfds d v =
    (serve-Keeps env (run_text env n) (run_text-Keeps env n) answers pfds).at d v
