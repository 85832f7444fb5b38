-- ===== src/Daemon/Loop.antt =====
-- The queues and the main loop (daemon.cpp, `processRemoveQueue`, `processCommandQueue` and
-- `cmd_daemon` from its loop on). What `poll` answers is a parameter.
use netevent.Prelude.{ℕ, Bool, true, not, ◌&&◌, List, [], ◌∷◌, ◌++◌, ltb, if◌then◌else◌}
use netevent.Daemon.Map.{find, erase}
use netevent.Daemon.State.{
  Env, M, Callback, Command, pure, throw, ◌>>=◌, ◌>>◌, skip, get, modify, when, some_or, next_call,
  catch_all, server, command_client, output_fd, device, server_removed, no_cleanup_callback,
  callback_map_broken, accept_failed, poll_failed, error_reply,
}
use netevent.Daemon.Queue.{
  contains, remove_fd, disconnect_client, finish_client_removal, new_command_client, read_command,
  to_client,
}
use netevent.Daemon.Events.{Run}
use netevent.Daemon.Inputs.{finish_device_removal, read_from_device, lose_device}
use netevent.Daemon.Outputs.{finish_output_removal}

-- What `poll` says about a descriptor.
pub record Revents : Type 0 where
  pub err : Bool
  pub hup : Bool
  pub readable : Bool

-- What a call of `poll` returns: the events, `EINTR`, or another error.
pub data Polled : Type 0 where
  polled : (ℕ → Revents) → Polled
  interrupted fails : Polled

unfoldable pub without_removed : List ℕ → List ℕ → List ℕ
unfolding contains
without_removed removed [] = []
without_removed removed (fd ∷ fds) =
    if contains removed fd then without_removed removed fds else fd ∷ without_removed removed fds

module _ (env : Env) (run : Run) where
  -- `onRemove`
  unfoldable pub on_remove : ℕ → Callback → M (Unit {0})
  on_remove fd server = throw server_removed
  on_remove fd command_client = finish_client_removal fd
  on_remove fd output_fd = finish_output_removal env run fd
  on_remove fd (device id) = finish_device_removal env fd

  -- `onError` and `onHUP`, which are the same for every descriptor.
  unfoldable pub on_lost : ℕ → Callback → M (Unit {0})
  on_lost fd server = modify (λ d. record d { quit = true })
  on_lost fd command_client = disconnect_client fd
  on_lost fd output_fd = remove_fd fd
  on_lost fd (device id) = lose_device env run fd

  -- `onRead`
  unfoldable pub on_read : ℕ → Callback → M (Unit {0})
  on_read fd server = do
    n ← next_call
    accepted ← some_or (env.accept n) accept_failed
    new_command_client accepted
  on_read fd command_client = do n ← next_call; read_command fd (env.read_line n fd)
  on_read fd output_fd = remove_fd fd
  on_read fd (device id) = read_from_device env run fd id

  -- The loop of `processRemoveQueue` over the descriptors that are queued when it starts.
  unfoldable pub run_removals : List ℕ → M (Unit {0})
  unfolding on_remove
  run_removals [] = skip
  run_removals (fd ∷ fds) = do
    d ← get
    c ← some_or (find ltb fd d.callbacks) no_cleanup_callback
    on_remove fd c
    modify (λ d. record d { callbacks = erase ltb fd d.callbacks })
    run_removals fds

  -- `processRemoveQueue`: what a removal queues is cleared with the rest.
  unfoldable pub process_remove_queue : M (Unit {0})
  unfolding run_removals
  process_remove_queue = do
    d ← get
    run_removals d.remove_queue
    modify (λ d. record d { remove_queue = [] })

  -- The loop of `processCommandQueue`.
  unfoldable pub run_queued : List Command → M (Unit {0})
  run_queued [] = skip
  run_queued (c ∷ cs) =
      catch_all (run c.client c.command) (λ e. to_client env c.client (error_reply e))
      >> run_queued cs

  -- `processCommandQueue`
  unfoldable pub process_command_queue : M (Unit {0})
  unfolding run_queued
  process_command_queue = do
    d ← get
    run_queued d.command_queue
    modify (λ d. record d { command_queue = [] })

  -- The loop's part in front of `poll`: the descriptors to poll.
  unfoldable pub prepare : List ℕ → M (List ℕ)
  unfolding process_remove_queue process_command_queue without_removed
  prepare pfds = do
    process_command_queue
    d ← get
    modify (λ d. record d { add_queue = [] })
    process_remove_queue
    pure (without_removed d.remove_queue (pfds ++ d.add_queue))

  -- The three callbacks of one descriptor; `if (gQuit) break` stands behind each.
  unfoldable pub call_back : ℕ → Callback → Revents → M (Unit {0})
  unfolding on_lost on_read
  call_back fd c r = do
    when r.err (on_lost fd c)
    d ← get
    when (not d.quit && r.hup) (on_lost fd c)
    d ← get
    when (not d.quit && r.readable) (on_read fd c)

  -- The loop's part behind `poll`.
  unfoldable pub dispatch : (ℕ → Revents) → List ℕ → M (Unit {0})
  unfolding call_back
  dispatch revents [] = skip
  dispatch revents (fd ∷ fds) = do
    d ← get
    c ← some_or (find ltb fd d.callbacks) callback_map_broken
    call_back fd c (revents fd)
    d ← get
    when (not d.quit) (dispatch revents fds)

  -- The main loop, for a list of answers of `poll`.
  unfoldable pub serve : List Polled → List ℕ → M (List ℕ)
  unfolding prepare dispatch
  serve [] pfds = pure pfds
  serve (answer ∷ answers) pfds = do
    d ← get
    if d.quit then pure pfds else (do
      fds ← prepare pfds
      d ← get
      if d.quit then pure fds else elim answer [
        | interrupted ↦ serve answers fds
        | fails ↦ throw poll_failed
        | polled revents ↦ dispatch revents fds >> serve answers fds
      ])
