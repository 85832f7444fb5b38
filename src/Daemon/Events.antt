-- ===== src/Daemon/Events.antt =====
-- The event actions and the two switches (daemon.cpp, `fireEvent` to `lostCurrentOutput`). The
-- functions that run a text of commands take `parseClientCommand` as an argument.
use netevent.Prelude.{
  ℕ, suc, Bool, true, false, List, [], ◌∷◌, Option, none, some, Bytes, leb, ◌+◌, length,
  if◌then◌else◌, codes,
}
use netevent.Text.Event.{ev_cnt}
use netevent.Device.In.{InDevice}
use netevent.Device.In
use netevent.Daemon.Map.{find, string_lt, hotkey_lt}
use netevent.Daemon.State.{
  Env, M, Input, done, pure, ◌>>=◌, ◌>>◌, skip, get, modify, when, require, some_or, effect,
  set_env, no_such_output, grab_failed,
}
use netevent.Daemon.Queue.{queue_command}

-- `parseClientCommand` as the callee of the functions below.
abbrev pub Run : Type 0
Run = Option ℕ → Bytes → M (Unit {0})

-- The environment's switches are `1` and `0`.
abbrev pub flag : Bool → Bytes
flag on = if on then codes "1" else codes "0"

-- `tryHotkey`
unfoldable pub try_hotkey : ℕ → ℕ → ℕ → ℕ → M Bool
unfolding queue_command
try_hotkey device type code value = do
  d ← get
  if leb ev_cnt type
      then pure false
      else elim (find hotkey_lt
          (record { device = device; type = type; code = code; value = value }) d.hotkeys) [
            | none ↦ pure false
            | some command ↦ queue_command none command >> pure true
          ]

module _ (env : Env) where
  -- The loop of `grab` over the inputs; a device that refuses ends it.
  unfoldable pub grab_inputs : Bool → List (Bytes × Input) → ℕ → List (Bytes × Input) × Bool
  grab_inputs on [] n = ([], true)
  grab_inputs on ((name, input) ∷ inputs) n =
      let (device, fine) = In.grab (env.evdev n input.device.fd) on input.device in
      let (rest, all) = grab_inputs on inputs (suc n) in
      if fine
      then ((name, record input { device = device }) ∷ rest, all)
      else ((name, input) ∷ inputs, false)

module _ (env : Env) (run : Run) where
  -- `fireEvent`. The model goes on with the text that the action had when it was fired; in the program
  -- an action that removes or sets itself frees that text, and what is read of it then is undefined.
  unfoldable pub fire_event : Option ℕ → Bytes → M (Unit {0})
  fire_event client event = do
    d ← get
    elim (find string_lt event d.event_commands) [ none ↦ skip | some command ↦ run client command ]

  -- `useOutput`
  unfoldable pub use_output : Option ℕ → Bytes → M (Unit {0})
  use_output client name = do
    d ← get
    fd ← some_or (find string_lt name d.outputs) (no_such_output name)
    modify (λ d. record d { current_fd = some fd; current_name = name })
    effect (set_env (codes "NETEVENT_OUTPUT_NAME") name)
    fire_event client (codes "output-changed")

  -- `writeEvents`
  unfoldable pub write_events : Option ℕ → Bool → M (Unit {0})
  write_events client on = do
    modify (λ d. record d { write = on })
    effect (set_env (codes "NETEVENT_WRITING") (flag on))
    fire_event client (codes "write-changed")

  -- `grab`
  unfoldable pub grab : Option ℕ → Bool → M (Unit {0})
  unfolding grab_inputs
  grab client on = do
    modify (λ d. record d { grab = on })
    effect (set_env (codes "NETEVENT_GRABBING") (flag on))
    fine ← λ d.
        (let (inputs, fine) = grab_inputs env on d.inputs d.calls in
          done fine (record d { inputs = inputs; calls = d.calls + length d.inputs }))
    require fine grab_failed
    fire_event client (codes "grab-changed")

  -- `lostCurrentOutput`
  unfoldable pub lost_current_output : M (Unit {0})
  lost_current_output = do
    modify (λ d. record d { current_fd = none; current_name = codes "<none>" })
    d ← get
    when d.write (write_events none false)
    d ← get
    when d.grab (grab none false)
