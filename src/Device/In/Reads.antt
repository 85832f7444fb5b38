-- ===== src/Device/In/Reads.antt =====
-- `InDevice::InDevice(const string&)` and `InDevice::read` (reader.cpp): a device is opened and its
-- events are read. What the kernel answers is a parameter, and an answer to a read is what `mustRead`
-- makes of it.
use netevent.Prelude.{ℕ, ◌%◌, ◌^◌, Bool, true, false, not, Option, none, some, Bytes, replicate}
use netevent.Bits.{byte_size}
use netevent.Text.Event.{ev_max}
use netevent.Packet.{InputEvent}
use netevent.Device.{InputId}
use netevent.Device.In.{InDevice}
use netevent.Device.Out.{c_name}

-- The answers to `open`, EVIOCGNAME, EVIOCGID and EVIOCGBIT of EV_SYN into a buffer of a size; `none`
-- is a failed call.
pub record Node : Type 0 where
  pub opened : Option ℕ
  pub name_buffer : Option Bytes
  pub identity : Option InputId
  pub types : ℕ → Option Bytes

pub data OpenError : Type 0 where
  open_failed name_failed id_failed types_failed : OpenError

-- The members that the constructor fills, or its exception.
pub data Opening : Type 0 where
  opens : InDevice → Opening
  open_throws : OpenError → Opening

abbrev pub with_types : ℕ → Bytes → InputId → Option Bytes → Opening
with_types fd name id none = open_throws types_failed
with_types fd name id (some bytes) = opens record {
  fd = fd;
  eof = false;
  grabbing = false;
  persistent = false;
  dev_name = name;
  dev_id = id;
  name = c_name name;
  evbits = record { bitcount = ev_max; bytes = bytes };
}

abbrev pub with_identity : Node → ℕ → Bytes → Option InputId → Opening
with_identity k fd name none = open_throws id_failed
with_identity k fd name (some id) = with_types fd name id (k.types (byte_size ev_max))

abbrev pub with_name : Node → ℕ → Option Bytes → Opening
with_name k fd none = open_throws name_failed
with_name k fd (some name) = with_identity k fd name k.identity

abbrev pub with_fd : Node → Option ℕ → Opening
with_fd k none = open_throws open_failed
with_fd k (some fd) = with_name k fd k.name_buffer

-- `InDevice::InDevice(const string&)`
unfoldable pub open_device : Node → Opening
open_device k = with_fd k k.opened

-- `struct input_event` of the kernel: the two members of the time and the value as patterns of 64
-- and 32 bits.
pub record RawEvent : Type 0 where
  pub sec : ℕ
  pub usec : ℕ
  pub type : ℕ
  pub code : ℕ
  pub value : ℕ

-- Why there are no more events: the end of the file, or an errno.
pub data Stop : Type 0 where
  gone : Stop
  broken : ℕ → Stop

pub data Answer : Type 0 where
  arrived : RawEvent → Answer
  stopped : Stop → Answer

pub data ReadError : Type 0 where
  unexpected_eof : ReadError
  read_failed : ℕ → ReadError

-- `read` returned with an event, or threw and left the device so.
pub data Got : Type 0 where
  got : InputEvent → Bool → Got
  refused : InDevice → ReadError → Got

-- The event of a packet whose padding is still zero.
abbrev pub event_of : RawEvent → InputEvent
event_of raw = record {
  tv_sec = raw.sec % 2 ^ 64;
  tv_usec = raw.usec % 2 ^ 32;
  type = raw.type % 2 ^ 16;
  code = raw.code % 2 ^ 16;
  value = raw.value % 2 ^ 32;
  padding = replicate 4 0;
}

-- `InDevice::read`
unfoldable pub read : Answer → InDevice → Got
read (arrived raw) d = got (event_of raw) (not d.eof)
read (stopped gone) d = refused (record d { eof = true }) unexpected_eof
read (stopped (broken e)) d = refused d (read_failed e)
