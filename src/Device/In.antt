-- ===== src/Device/In.antt =====
-- `InDevice` (reader.cpp). What the kernel answers about an event device is a parameter, `Evdev`.
-- Allocations are taken to succeed.
pub mod Reads
use netevent.Prelude.{
  ℕ, ◌-◌, ◌*◌, ◌%◌, ◌^◌, Bool, true, false, not, ◌&&◌, ◌||◌, List, [], ◌∷◌, ◌++◌, Option, none,
  some, Bytes, length, replicate, take, leb, ◌==◌, if◌then◌else◌,
}
use netevent.Bits.{Bits, byte_size, set_bits, empty, reallocated}
use netevent.Wire.{htobe16}
use netevent.Packet.{add_packet}
use netevent.Device.{
  InputId, AbsInfo, name_size, info_size, ev_abs, bit_length, transferred, id_to_net, abs_to_net,
}

-- The kernel's answers for one event device: EVIOCGBIT of an event type into a buffer of a size,
-- EVIOCGABS of an axis, and EVIOCGRAB with its errno, 0 for success. `none` is a failed request.
pub record Evdev : Type 0 where
  pub query_bits : ℕ → ℕ → Option Bytes
  pub query_abs : ℕ → Option AbsInfo
  pub grab_errno : Bool → ℕ

-- `InDevice`: the name and identifier in `user_dev_`, and the name remembered in `name_`.
pub record InDevice : Type 0 where
  pub fd : ℕ
  pub eof : Bool
  pub grabbing : Bool
  pub persistent : Bool
  pub dev_name : Bytes
  pub dev_id : InputId
  pub name : Bytes
  pub evbits : Bits

-- `InDevice::setName`: the name in the buffer, padded with zeros; `none` is the exception for a
-- name that is too long.
unfoldable pub set_name : Bytes → InDevice → Option InDevice
set_name name d =
    if leb name_size (length name)
    then none
    else some (record d { dev_name = name ++ replicate (name_size - length name) 0 })

-- `InDevice::resetName`
unfoldable pub reset_name : InDevice → Option InDevice
unfolding set_name
reset_name d = set_name d.name d

-- `InDevice::persistent(bool)`
unfoldable pub set_persistent : Bool → InDevice → InDevice
set_persistent on d = record d { persistent = on }

-- EBUSY and EINVAL.
abbrev pub ebusy : ℕ
ebusy = 16

abbrev pub einval : ℕ
einval = 22

abbrev pub same : Bool → Bool → Bool
same true b = b
same false b = not b

-- `InDevice::grab`: the device, and whether the call returned; otherwise it threw.
unfoldable pub grab : Evdev → Bool → InDevice → InDevice × Bool
grab k on d =
    let errno = k.grab_errno on in
    if errno == 0
    then (record d { grabbing = on }, true)
    else if same on d.grabbing && (on && errno == ebusy || not on && errno == einval)
    then (d, true)
    else (d, false)

-- The writes of a function that ends after them, and whether it ended by returning.
pub record Writes : Type 0 where
  pub sent : List Bytes
  pub finished : Bool

abbrev pub before : Bytes → Writes → Writes
before b w = record w { sent = b ∷ w.sent }

-- The axis data: `for (auto abs : absbits) …`, then the empty state bits.
unfoldable pub axis_writes : Evdev → ℕ → List ℕ → Writes
axis_writes k size [] = record { sent = (reallocated size empty).bytes ∷ []; finished = true }
axis_writes k size (i ∷ is) = elim (k.query_abs i) [
  | none ↦ record { sent = []; finished = false }
  | some a ↦ before (abs_to_net a) (axis_writes k size is)
]

-- The code bits: `for (auto ev: evbits_) …`. `absbits` remembers those of the axes.
unfoldable pub entry_writes : Evdev → ℕ → Bits → List ℕ → Writes
entry_writes k size absbits [] = axis_writes k size (set_bits absbits)
entry_writes k size absbits (ev ∷ evs) =
    let count = bit_length ev * 64 in
    elim (k.query_bits ev (byte_size count)) [
      | none ↦ record { sent = []; finished = false }
      | some bits ↦
          let entry : Bits = record { bitcount = count; bytes = bits } in
          before (htobe16 (count % 2 ^ 16) ++ bits)
            (entry_writes k size (if ev == ev_abs then entry else absbits) evs)
    ]

-- The first write of `writeNE2AddDevice`.
unfoldable pub device_header : ℕ → InDevice → Bytes
device_header id d =
    add_packet id info_size name_size
    ++ (d.dev_name
        ++ (id_to_net d.dev_id
            ++ (htobe16 d.evbits.bitcount ++ take (byte_size d.evbits.bitcount) d.evbits.bytes)))

-- `InDevice::writeNE2AddDevice`: the writes in order, as far as the requests between them succeed.
unfoldable pub write_ne2_add_device : Evdev → ℕ → InDevice → Writes
write_ne2_add_device k id d =
    before (device_header id d)
      (entry_writes k d.evbits.bitcount empty (transferred (set_bits d.evbits)))
