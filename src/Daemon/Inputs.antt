-- ===== src/Daemon/Inputs.antt =====
-- The input devices (daemon.cpp, `getNextInputID` to `removeDevice`). A device is known by its
-- descriptor, which is its own while it is open.
use netevent.Prelude.{
  ℕ, ◌%◌, ◌^◌, Bool, true, false, not, List, [], ◌∷◌, Option, none, some, Bytes, length, ltb, ◌==◌,
  if◌then◌else◌, codes,
}
use netevent.Packet.{InputEvent, event_packet}
use netevent.Device.In.{write_ne2_add_device}
use netevent.Daemon.Map.{Map, find, erase, emplace, string_lt}
use netevent.Daemon.State.{
  Env, M, Input, done, thrown, pure, throw, ◌>>=◌, ◌>>◌, skip, get, modify, when, require, some_or,
  effect, next_call, wrote, got, at_end, read_error, catch_all, too_many_inputs, no_such_device,
  device_exists, device_failed, device_not_found, event_unreadable, output_failed, device,
}
use netevent.Daemon.Queue.{
  remove_fd, add_fd, set_callback, announce_device_removal, cleanup_device_hotkeys,
}
use netevent.Daemon.Events.{Run, try_hotkey, fire_event, lost_current_output}

-- `getNextInputID`
unfoldable pub get_next_input_id : M ℕ
get_next_input_id d =
    if ltb 0xffff (length d.inputs) then thrown too_many_inputs d else elim d.free_ids [
      | [] ↦ done (length d.inputs % 2 ^ 16) d
      | next ∷ rest ↦ done next (record d { free_ids = rest })
    ]

-- `freeInputID`
unfoldable pub free_input_id : ℕ → M (Unit {0})
free_input_id id d = done tt (record d { free_ids = id ∷ d.free_ids })

-- `closeDevice`
unfoldable pub close_device : ℕ → M (Unit {0})
unfolding remove_fd
close_device fd = remove_fd fd

-- The loop of `finishDeviceRemoval`: the input with a descriptor.
unfoldable pub input_at : ℕ → Map Bytes Input → Option (Bytes × Input)
input_at fd [] = none
input_at fd ((name, input) ∷ m) =
    if input.device.fd == fd then some (name, input) else input_at fd m

-- `findDevice`
unfoldable pub find_device : Bytes → M Input
find_device name = do d ← get; some_or (find string_lt name d.inputs) (no_such_device name)

-- `removeDevice`
unfoldable pub remove_device : Bytes → M (Unit {0})
unfolding find_device close_device
remove_device name = find_device name >>= λ input. close_device input.device.fd

-- The write of `InDevice::read` to its state: the end of the file is remembered.
abbrev pub at_eof : ℕ → Map Bytes Input → Map Bytes Input
at_eof fd [] = []
at_eof fd ((name, input) ∷ m) =
    if input.device.fd == fd
    then (name, record input { device = record input.device { eof = true } }) ∷ m
    else (name, input) ∷ at_eof fd m

module _ (env : Env) where
  -- `finishDeviceRemoval`
  unfoldable pub finish_device_removal : ℕ → M (Unit {0})
  unfolding input_at
  finish_device_removal fd = do
    d ← get
    (name, input) ← some_or (input_at fd d.inputs) device_not_found
    when (not input.device.persistent) (announce_device_removal env input)
    cleanup_device_hotkeys input.id
    modify (λ d. record d { inputs = erase string_lt name d.inputs })

  -- The writes of `writeNE2AddDevice`; one that fails is an exception.
  unfoldable pub write_all : ℕ → List Bytes → Bool → M (Unit {0})
  write_all fd [] finished = require finished device_failed
  write_all fd (b ∷ bs) finished = do
    n ← next_call
    require (env.write_ok n fd b) output_failed
    effect (wrote fd b)
    write_all fd bs finished

  -- `announceDevice(Input&, int)`
  unfoldable pub announce_device : Input → ℕ → M Bool
  unfolding write_all
  announce_device input fd = do
    n ← next_call
    let writes = write_ne2_add_device (env.evdev n input.device.fd) input.id input.device
    catch_all (write_all fd writes.sent writes.finished >> pure true)
        (λ e. remove_fd fd >> pure false)

  -- `announceDevice(Input&)`
  unfoldable pub announce_to_all : Input → List (Bytes × ℕ) → M (Unit {0})
  unfolding announce_device
  announce_to_all input [] = skip
  announce_to_all input ((name, fd) ∷ outputs) =
      announce_device input fd >>= λ _. announce_to_all input outputs

  -- `announceAllDevices`
  unfoldable pub announce_all_devices : ℕ → List (Bytes × Input) → M (Unit {0})
  unfolding announce_device
  announce_all_devices fd [] = skip
  announce_all_devices fd ((name, input) ∷ inputs) =
      announce_device input fd >>= λ fine. when fine (announce_all_devices fd inputs)

  -- `addDevice`: an exception gives the identifier back.
  unfoldable pub add_device : Bytes → Bytes → M (Unit {0})
  unfolding get_next_input_id free_input_id announce_to_all add_fd
  add_device name path = do
    d ← get
    elim (find string_lt name d.inputs) [ none ↦ skip | some _ ↦ throw (device_exists name) ]
    id ← get_next_input_id
    catch_all
        (do
          n ← next_call
          opened ← some_or (env.open_device n path) device_failed
          d ← get
          announce_to_all (record { id = id; device = opened }) d.outputs
          add_fd opened.fd
          set_callback opened.fd (device id)
          modify (λ d. record d {
            inputs = emplace string_lt name (record { id = id; device = opened }) d.inputs;
          }))
        (λ e. free_input_id id >> throw e)

  -- `InDevice::read`
  unfoldable pub read_device : ℕ → M (Bool × InputEvent)
  read_device fd = do
    n ← next_call
    elim (env.read_event n fd) [
      | read_error ↦ throw event_unreadable
      | at_end ↦ modify (λ d. record d { inputs = at_eof fd d.inputs }) >> throw event_unreadable
      | got ev ↦ get >>= λ d.
          pure (elim (input_at fd d.inputs) [ none ↦ true | some (_, i) ↦ not i.device.eof ], ev)
    ]

module _ (env : Env) (run : Run) where
  -- `readFromDevice` from `mustWrite` on.
  unfoldable pub send : ℕ → ℕ → InputEvent → M (Unit {0})
  unfolding lost_current_output
  send fd id ev = do
    n ← next_call
    if env.write_ok n fd (event_packet id ev)
        then effect (wrote fd (event_packet id ev))
        else remove_fd fd >> lost_current_output env run

  -- The tests of the current output and of `gWrite`.
  unfoldable pub to_output : ℕ → InputEvent → Option ℕ → Bool → M (Unit {0})
  to_output id ev none on = skip
  to_output id ev (some fd) on = when on (send fd id ev)

  unfoldable pub to_current : ℕ → InputEvent → M (Unit {0})
  unfolding to_output
  to_current id ev d = to_output id ev d.current_fd d.write d

  -- `readFromDevice` behind the read: an event that is no hotkey goes to the current output.
  unfoldable pub forward : ℕ → InputEvent → M (Unit {0})
  forward id ev = do
    hot ← try_hotkey id ev.type ev.code ev.value
    if hot then skip else to_current id ev

  -- `readFromDevice`: an exception inside its `try` closes the device.
  unfoldable pub read_from_device : ℕ → ℕ → M (Unit {0})
  unfolding read_device close_device
  read_from_device fd id = do
    read ←
        catch_all
          (do
            (fine, ev) ← read_device env fd
            if fine
                then pure (some ev)
                else fire_event env run none (codes "device-lost") >> close_device fd >> pure none)
          (λ e. close_device fd >> pure none)
    elim read [ none ↦ skip | some ev ↦ forward id ev ]

  -- The handlers of a device's POLLHUP and POLLERR.
  unfoldable pub lose_device : ℕ → M (Unit {0})
  lose_device fd = fire_event env run none (codes "device-lost") >> close_device fd
