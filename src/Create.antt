-- ===== src/Create.antt =====
-- `netevent create` (main.cpp, `readHello` and `cmd_create`): the loop that turns packets into
-- devices and their events. The uinput driver and the writes to a device are parameters, and a
-- client is the bytes that its descriptor delivers, with how it ends.
pub mod Fuel
pub mod Messages
pub mod Refines
pub mod Step
pub mod Heard
pub mod Session
pub mod Start
use netevent.Prelude.{
  ℕ, zero, suc, ◌+◌, Bool, true, false, List, [], ◌∷◌, ◌++◌, Option, none, some, Bytes, length,
  take, drop, leb, ltb, ◌==◌, if◌then◌else◌,
}
use netevent.Packet.{
  InputEvent, Command, keep_alive, add_device, remove_device, device_event, hello, command_code,
  packet_size, packet_cmd, packet_id, to_host, HelloCheck, check_hello, accepted,
}
use netevent.Device.Out.{
  DeviceError, Uinput, OutDevice, Result, ok, err, new_from_ne2_add_command, write,
}
use netevent.Daemon.Map.{Map, find, assign, erase}

-- `DuplicateMode`
pub data Duplicates : Type 0 where
  reject resume replace : Duplicates

-- The exceptions of the loop.
pub data Error : Type 0 where
  device_error : DeviceError → Error
  bad_hello : HelloCheck → Error
  duplicate_device missing_device unknown_packet : ℕ → Error
  write_failed read_failed no_hello accept_failed : Error

-- The driver that the n-th announcement meets, and whether a device takes the n-th event.
pub record World : Type 0 where
  pub driver : ℕ → Uinput
  pub takes : ℕ → InputEvent → Bool

-- `devices` and `gUse_UI_DEV_SETUP`; the announcements and events so far, and the events that were
-- written to devices, by their descriptors, in order.
pub record Receiver : Type 0 where
  pub devices : Map ℕ OutDevice
  pub modern : Bool
  pub announced : ℕ
  pub events : ℕ
  pub written : List (ℕ × InputEvent)

-- What a packet leads to: the receiver and the rest of the stream, or an exception.
pub data Next : Type 0 where
  next : Receiver → Bytes → Next
  thrown : Error → Next

-- How the loop over the packets of a client ends.
pub data Ended : Type 0 where
  at_end : Receiver → Ended
  failed : Error → Receiver → Ended
  out_of_fuel : Ended

-- The bytes of a client, and whether reading them ends with an error.
pub record Client : Type 0 where
  pub bytes : Bytes
  pub fails : Bool

-- The receiver in front of the loop.
abbrev pub start : Receiver
start = record { devices = []; modern = true; announced = 0; events = 0; written = [] }

-- `readHello`: the rest of the stream behind an accepted greeting.
unfoldable pub read_hello : Bytes → Option Bytes
unfolding check_hello
read_hello s =
    if leb packet_size (length s)
    then elim (check_hello (take packet_size s)) [ accepted ↦ some (drop packet_size s) | _ ↦ none ]
    else none

abbrev pub events_of : ℕ → List InputEvent → List (ℕ × InputEvent)
events_of fd [] = []
events_of fd (ev ∷ evs) = (fd, ev) ∷ events_of fd evs

-- The device that `newFromNE2AddCommand` returns goes into the map.
unfoldable pub stored : ℕ → Receiver → Result (Option OutDevice × Bool) → Next
stored id r (err e) = thrown (device_error e)
stored id r (ok (none, modern) rest) =
    next (record r { modern = modern; announced = suc r.announced }) rest
stored id r (ok (some dev, modern) rest) =
    next
      (record r {
        devices = assign ltb id dev r.devices;
        modern = modern;
        announced = suc r.announced;
      })
      rest

-- What `skipNE2AddCommand` returns is dropped.
unfoldable pub skipped : Receiver → Result (Option OutDevice × Bool) → Next
skipped r (err e) = thrown (device_error e)
skipped r (ok (dev, modern) rest) =
    next (record r { modern = modern; announced = suc r.announced }) rest

-- What `OutDevice::write` did.
unfoldable pub delivered : ℕ → Receiver → Bytes → Option (List InputEvent) → Next
delivered fd r s none = thrown write_failed
delivered fd r s (some evs) =
    next (record r { events = suc r.events; written = r.written ++ events_of fd evs }) s

-- What `checkHello` finds.
unfoldable pub greeted : Receiver → Bytes → HelloCheck → Next
greeted r s accepted = next r s
greeted r s c = thrown (bad_hello c)

-- The loop behind a packet.
abbrev pub continue : (Receiver → Bytes → Ended) → Receiver → Next → Ended
continue loop r (thrown e) = failed e r
continue loop r (next r' rest) = loop r' rest

-- Behind a client: a socket that listens accepts the next one.
abbrev pub ended : (Receiver → Ended) → Bool → Bool → Ended → Ended
ended more listening fails (at_end r) =
    if fails then failed read_failed r else if listening then more r else at_end r
ended more listening fails (failed e r) = failed e r
ended more listening fails out_of_fuel = out_of_fuel

module _ (w : World) where
  -- `newFromNE2AddCommand` and `devices[id] = …`
  unfoldable pub store_device : ℕ → Bytes → Receiver → Bytes → Next
  unfolding stored
  store_device id pkt r s =
      stored id r (new_from_ne2_add_command (w.driver r.announced) r.modern false pkt s)

  -- `skipNE2AddCommand`
  unfoldable pub skip_device : Bytes → Receiver → Bytes → Next
  unfolding skipped
  skip_device pkt r s =
      skipped r (new_from_ne2_add_command (w.driver r.announced) r.modern true pkt s)

  -- A device that has the identifier already.
  unfoldable pub duplicate : Duplicates → ℕ → Bytes → Receiver → Bytes → Next
  unfolding skip_device store_device
  duplicate reject id pkt r s = thrown (duplicate_device id)
  duplicate resume id pkt r s = skip_device pkt r s
  duplicate replace id pkt r s = store_device id pkt r s

  -- `case NE2Command::AddDevice`, by what `devices.find` gives.
  unfoldable pub add_to : Duplicates → ℕ → Bytes → Receiver → Bytes → Option OutDevice → Next
  unfolding duplicate
  add_to mode id pkt r s none = store_device id pkt r s
  add_to mode id pkt r s (some old) = duplicate mode id pkt r s

  unfoldable pub on_add : Duplicates → Bytes → Receiver → Bytes → Next
  unfolding add_to
  on_add mode pkt r s = add_to mode (packet_id pkt) pkt r s (find ltb (packet_id pkt) r.devices)

  -- `case NE2Command::RemoveDevice`
  unfoldable pub remove_from : ℕ → Receiver → Bytes → Option OutDevice → Next
  remove_from id r s none = thrown (missing_device id)
  remove_from id r s (some dev) = next (record r { devices = erase ltb id r.devices }) s

  unfoldable pub on_remove : Bytes → Receiver → Bytes → Next
  unfolding remove_from
  on_remove pkt r s = remove_from (packet_id pkt) r s (find ltb (packet_id pkt) r.devices)

  -- `case NE2Command::DeviceEvent`
  unfoldable pub event_to : ℕ → InputEvent → Receiver → Bytes → Option OutDevice → Next
  unfolding write delivered
  event_to id ev r s none = thrown (missing_device id)
  event_to id ev r s (some dev) = delivered dev.fd r s (write (w.takes r.events) ev)

  unfoldable pub on_event : Bytes → Receiver → Bytes → Next
  unfolding event_to
  on_event pkt r s =
      event_to (packet_id pkt) (to_host (drop 4 pkt)) r s (find ltb (packet_id pkt) r.devices)

  -- `case NE2Command::Hello`
  unfoldable pub on_hello : Bytes → Receiver → Bytes → Next
  unfolding check_hello greeted
  on_hello pkt r s = greeted r s (check_hello pkt)

  -- The `switch`.
  unfoldable pub on_packet : Duplicates → Bytes → Receiver → Bytes → Next
  unfolding packet_cmd
  on_packet mode pkt r s =
      if packet_cmd pkt == command_code hello
      then on_hello pkt r s
      else if packet_cmd pkt == command_code keep_alive
      then next r s
      else if packet_cmd pkt == command_code add_device
      then on_add mode pkt r s
      else if packet_cmd pkt == command_code remove_device
      then on_remove pkt r s
      else if packet_cmd pkt == command_code device_event
      then on_event pkt r s
      else thrown (unknown_packet (packet_cmd pkt))

  -- The `while` loop, with fuel for its rounds. What is left when `mustRead` fails is less than a
  -- packet, and is lost.
  unfoldable pub packets : Duplicates → ℕ → Receiver → Bytes → Ended
  packets mode zero r s = out_of_fuel
  packets mode (suc fuel) r s = elim (leb packet_size (length s)) [
    | false ↦ at_end r
    | true ↦
        continue (packets mode fuel) r (on_packet mode (take packet_size s) r (drop packet_size s))
  ]

  -- `Resume` with the clients that come; the loop waits when there is none.
  unfoldable pub clients : Duplicates → Bool → List Client → Receiver → Ended
  unfolding packets
  clients mode listening [] r = at_end r
  clients mode listening (c ∷ cs) r =
      ended (clients mode listening cs) listening c.fails
        (packets mode (suc (length c.bytes)) r c.bytes)

  -- `cmd_create` from `readHello` on: only the first client has to greet.
  unfoldable pub create : Duplicates → Bool → List Client → Ended
  unfolding clients read_hello
  create mode listening [] = failed no_hello start
  create mode listening (c ∷ cs) = elim (read_hello c.bytes) [
    | none ↦ failed no_hello start
    | some rest ↦ clients mode listening (record c { bytes = rest } ∷ cs) start
  ]
