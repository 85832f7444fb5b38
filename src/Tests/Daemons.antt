-- ===== src/Tests/Daemons.antt =====
-- Examples for the daemon: two devices, one output, one hotkey.
use netevent.Prelude.{
  ℕ, ◌≡◌, refl, true, false, [], ◌∷◌, ◌++◌, none, some, Bytes, codes, arith, length, replicate,
  drop,
}
use netevent.Packet.{
  InputEvent, IsValid, packet_size, packet_cmd, packet_id, command_code, device_event, to_host,
}
use netevent.Bits.{empty}
use netevent.Device.In.{InDevice}
use netevent.Daemon.Map.{HotkeyDef, find, assign, erase, hotkey_lt, string_lt}
use netevent.Daemon.State.{
  Daemon, Env, Input, done, thrown, ◌>>◌, initial, wrote, at_end, unknown_command,
}
use netevent.Daemon.Queue.{without_device, cleanup_device_hotkeys}
use netevent.Daemon.Events.{try_hotkey}
use netevent.Daemon.Inputs.{
  forward, input_at, finish_device_removal, get_next_input_id, announce_to_all,
}
use netevent.Daemon.Commands.Hotkey.{add_hotkey}
use netevent.Daemon.Commands.Dispatch.{run_text, source_line}
use netevent.Daemon.Loop.{process_command_queue}
use netevent.Daemon.Hotkeys.{add_hotkey-try_hotkey, cleanup_device_hotkeys-try_hotkey, SameFields}
use netevent.Daemon.Ids.{finish_device_removal_lem, next_id_after_removal}
use netevent.Daemon.Safety.{process_command_queue_caught, announce_to_all_caught}
use netevent.Daemon.Forward.{forward_delivers, key_of}
use netevent.Daemon.Scripts.{source_line_last}

-- A system that takes every write and has nothing to open.
abbrev pub world : Env
world = record {
  write_ok = λ n fd b. true;
  open_device = λ n path. none;
  evdev =
      λ n fd. record { query_bits = λ ev size. none; query_abs = λ i. none; grab_errno = λ on. 0 };
  open_output = λ n path. none;
  fork_ok = λ n command. true;
  reply_ok = λ n fd r. true;
  accept = λ n. none;
  read_line = λ n fd. none;
  read_event = λ n fd. at_end;
  read_file = λ n path. none;
}

abbrev device_on : ℕ → InDevice
device_on fd = record {
  fd = fd;
  eof = false;
  grabbing = false;
  persistent = false;
  dev_name = replicate 80 0;
  dev_id = record { bustype = 3; vendor = 1; product = 1; version = 1 };
  name = codes "dev";
  evbits = empty;
}

abbrev mouse : Input
mouse = record { id = 0; device = device_on 4 }

abbrev stick : Input
stick = record { id = 1; device = device_on 5 }

-- Button 272 of device 1.
abbrev button : HotkeyDef
button = record { device = 1; type = 1; code = 272; value = 1 }

abbrev other_button : HotkeyDef
other_button = record { device = 0; type = 1; code = 273; value = 1 }

abbrev pub running : Daemon
running = record initial {
  inputs = (codes "mouse", mouse) ∷ (codes "stick", stick) ∷ [];
  outputs = (codes "pc", 6) ∷ [];
  current_fd = some 6;
  current_name = codes "pc";
  write = true;
  hotkeys = (button, codes "use pc") ∷ [];
  command_queue = record { client = none; command = codes "no-such-command" } ∷ [];
}

abbrev press_of : ℕ → InputEvent
press_of code = record {
  tv_sec = 7;
  tv_usec = 5;
  type = 1;
  code = code;
  value = 1;
  padding = replicate 4 0;
}

press_of_273-IsValid : IsValid (press_of 273)
press_of_273-IsValid = record {
  sec_fits = omega arith;
  usec_fits = omega arith;
  type_fits = omega arith;
  code_fits = omega arith;
  value_fits = omega arith;
  padding_size = refl;
}

no_hotkey : find hotkey_lt (key_of 1 (press_of 273)) running.hotkeys ≡ none
unfolding find hotkey_lt
no_hotkey = refl

mouse_there : input_at 4 running.inputs ≡ some (codes "mouse", mouse)
unfolding input_at
mouse_there = refl

forward_delivers_example :
    (packet : Bytes) × (forward world (run_text world 3) 1 (press_of 273) running
      ≡ done tt (record running { calls = 1; trace = wrote 6 packet ∷ [] }))
    × (length packet ≡ packet_size)
    × (packet_cmd packet ≡ command_code device_event)
    × (packet_id packet ≡ 1)
    × (to_host (drop 4 packet) ≡ press_of 273)
forward_delivers_example =
    forward_delivers world (run_text world 3) 1 6 (press_of 273) running (omega arith)
      press_of_273-IsValid no_hotkey refl refl refl

buttons_differ : ¬ SameFields other_button button
buttons_differ = λ s. ground (arith, s.0)

add_hotkey-try_hotkey_example :
    ((add_hotkey button (codes "quit") >> try_hotkey 1 1 272 1) running
      ≡ done true (record running {
        hotkeys = assign hotkey_lt button (codes "quit") running.hotkeys;
        command_queue =
            running.command_queue ++ (record { client = none; command = codes "quit" } ∷ []);
      }))
    × (find hotkey_lt other_button (assign hotkey_lt button (codes "quit") running.hotkeys)
        ≡ find hotkey_lt other_button running.hotkeys)
add_hotkey-try_hotkey_example =
    add_hotkey-try_hotkey button other_button (codes "quit") running (omega arith) buttons_differ

cleanup_device_hotkeys-try_hotkey_example :
    ((cleanup_device_hotkeys 1 >> try_hotkey 1 1 272 1) running
      ≡ done false (record running { hotkeys = without_device 1 running.hotkeys }))
    × (find hotkey_lt other_button (without_device 1 running.hotkeys)
        ≡ find hotkey_lt other_button running.hotkeys)
cleanup_device_hotkeys-try_hotkey_example =
    cleanup_device_hotkeys-try_hotkey 1 1 272 1 other_button running (ground arith)

finish_device_removal_lem_example :
    (d' : Daemon) × (finish_device_removal world 4 running ≡ done tt d')
    × (d'.inputs ≡ erase string_lt (codes "mouse") running.inputs)
    × (d'.hotkeys ≡ without_device 0 running.hotkeys)
    × (d'.free_ids ≡ running.free_ids)
finish_device_removal_lem_example =
    finish_device_removal_lem world 4 (codes "mouse") mouse running mouse_there

-- The stick, whose identifier is 1, is still there.
next_id_after_removal_example :
    (d' : Daemon) × (finish_device_removal world 4 running ≡ done tt d')
    × (get_next_input_id d' ≡ done 1 d')
next_id_after_removal_example =
    next_id_after_removal world 4 (codes "mouse") mouse running mouse_there refl (omega arith)

process_command_queue_caught_example : ¬ (
    process_command_queue world (run_text world 3) running
    ≡ thrown (unknown_command (codes "no-such-command")) running)
process_command_queue_caught_example =
    process_command_queue_caught world (run_text world 3) running running
      (unknown_command (codes "no-such-command"))

announce_to_all_caught_example :
    ¬ (announce_to_all world mouse running.outputs running ≡ thrown (unknown_command []) running)
announce_to_all_caught_example =
    announce_to_all_caught world mouse running.outputs running running (unknown_command [])

source_line_last_example : source_line (codes "quit") ≡ source_line (codes "qui\n")
source_line_last_example = source_line_last (codes "qui") b't' b'\n'
