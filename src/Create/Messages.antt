-- ===== src/Create/Messages.antt =====
-- What a stream of packets says, as messages, and what they do to the devices that the receiver has:
-- a partial function from identifiers to devices, and the events that reached a device.
use netevent.Prelude.{
  ℕ, suc, ◌*◌, ◌^◌, ◌<◌, ◌≡◌, List, [], ◌∷◌, ◌++◌, Option, none, some, Bytes, length, replicate,
  ◌==◌, if◌then◌else◌,
}
use netevent.Bits.{byte_size}
use netevent.Wire.{htobe16}
use netevent.Text.Event.{ev_ff, ev_max}
use netevent.Packet.{
  InputEvent, hello_packet, add_packet, remove_packet, event_packet, command_code, keep_alive,
  IsValid,
}
use netevent.Device.{InputId, AbsInfo, name_size, info_size, bit_length}
use netevent.Device.Out.{OutDevice, c_name}
use netevent.Device.Transfer.Spec.{IdFits, AbsFits, described, announcement}
use netevent.Create.{Duplicates, reject, resume, replace, Error, duplicate_device, missing_device}

-- What a device says of itself.
pub record Description : Type 0 where
  pub bits_of : ℕ → Bytes
  pub abs_of : ℕ → AbsInfo
  pub name : Bytes
  pub id : InputId
  pub evs : Bytes

-- A description whose parts have the sizes of their fields; the name has a terminator.
pub record Fits (d : Description) : Type 0 where
  pub full : (ev : ℕ) → length (d.bits_of ev) ≡ byte_size (bit_length ev * 64)
  pub axes_fit : (i : ℕ) → AbsFits (d.abs_of i)
  pub name_fits : length d.name ≡ name_size
  pub name_ends : length (c_name d.name) < name_size
  pub id_fits : IdFits d.id
  pub types_fit : length d.evs ≡ byte_size ev_max

pub data Message : Type 0 where
  greet alive : Message
  announce : ℕ → Description → Message
  remove : ℕ → Message
  event : ℕ → InputEvent → Message

-- The bytes of a message.
abbrev pub encode : Message → Bytes
encode greet = hello_packet
encode alive = htobe16 (command_code keep_alive) ++ replicate 26 0
encode (announce number d) =
    add_packet number info_size name_size ++ announcement d.bits_of d.abs_of d.name d.id d.evs []
encode (remove id) = remove_packet id
encode (event id ev) = event_packet id ev

abbrev pub encode_all : List Message → Bytes
encode_all [] = []
encode_all (m ∷ ms) = encode m ++ encode_all ms

-- The numbers of a message fit their fields.
abbrev pub MessageFits : Message → Type 0
MessageFits greet = Unit {0}
MessageFits alive = Unit {0}
MessageFits (announce number d) = (number < 2 ^ 16) × Fits d
MessageFits (remove id) = id < 2 ^ 16
MessageFits (event id ev) = (id < 2 ^ 16) × IsValid ev

abbrev pub AllFit : List Message → Type 0
AllFit [] = Unit {0}
AllFit (m ∷ ms) = MessageFits m × AllFit ms

-- The abstract receiver. `announced` counts the announcements.
pub record Session : Type 0 where
  pub device_of : ℕ → Option OutDevice
  pub announced : ℕ
  pub written : List (ℕ × InputEvent)

pub data Verdict : Type 0 where
  goes : Session → Verdict
  stops : Error → Verdict

abbrev pub update : (ℕ → Option OutDevice) → ℕ → Option OutDevice → ℕ → Option OutDevice
update f id dev j = if j == id then dev else f j

-- The descriptor that the n-th announcement gets.
module _ (fds : ℕ → ℕ) where
  abbrev pub device_for : ℕ → Description → OutDevice
  device_for n d = described (fds n) d.bits_of d.abs_of d.name d.id d.evs

  -- An announced device is added; one whose identifier is taken is refused, dropped or put in the
  -- place of the old one.
  abbrev pub announced_new : ℕ → Description → Session → Verdict
  announced_new number d s = goes (record s {
    device_of = update s.device_of number (some (device_for s.announced d));
    announced = suc s.announced;
  })

  abbrev pub announced_to : Duplicates → ℕ → Description → Session → Option OutDevice → Verdict
  announced_to mode number d s none = announced_new number d s
  announced_to reject number d s (some old) = stops (duplicate_device number)
  announced_to resume number d s (some old) = goes (record s { announced = suc s.announced })
  announced_to replace number d s (some old) = announced_new number d s

  abbrev pub removed_from : ℕ → Session → Option OutDevice → Verdict
  removed_from id s none = stops (missing_device id)
  removed_from id s (some dev) = goes (record s { device_of = update s.device_of id none })

  -- All events but those of force feedback reach their device.
  abbrev pub event_for : ℕ → InputEvent → Session → Option OutDevice → Verdict
  event_for id ev s none = stops (missing_device id)
  event_for id ev s (some dev) =
      goes
        (record s { written = s.written ++ (if ev.type == ev_ff then [] else (dev.fd, ev) ∷ []) })

  unfoldable pub said : Duplicates → Session → Message → Verdict
  said mode s greet = goes s
  said mode s alive = goes s
  said mode s (announce number d) = announced_to mode number d s (s.device_of number)
  said mode s (remove id) = removed_from id s (s.device_of id)
  said mode s (event id ev) = event_for id ev s (s.device_of id)

  abbrev pub going : (Session → Verdict) → Verdict → Verdict
  going k (goes s) = k s
  going k (stops e) = stops e

  -- The messages in their order, up to the first that is refused.
  unfoldable pub all_said : Duplicates → List Message → Session → Verdict
  unfolding said
  all_said mode [] s = goes s
  all_said mode (m ∷ ms) s = going (all_said mode ms) (said mode s m)
