-- ===== src/Tests/Devices.antt =====
-- Examples for reads, bit vectors, packets and the transfer of devices.
use netevent.Prelude.{
  ℕ, ◌*◌, ◌<◌, ◌≡◌, refl, Bool, true, false, List, [], ◌∷◌, ◌++◌, some, Bytes, codes, arith, length,
  replicate, take, drop, if◌then◌else◌, ◌==◌, length-replicate,
}
use netevent.Io.{Chunk, got, must_read, delivered, done}
use netevent.Io.Reads.{must_read_succeeds}
use netevent.Bits.{Bits, IsValid, byte_size, get_bit, set_bit, resize, new_bits, empty}
use netevent.Bits.Access.{get_bit-set_bit}
use netevent.Bits.Resize.{resize-Resized, Resized}
use netevent.Packet.{
  InputEvent, event_packet, remove_packet, add_packet, packet_size, packet_cmd, packet_id,
  command_code, device_event, remove_device, add_device, to_host, to_net,
}
use netevent.Packet
use netevent.Wire.{be16toh}
use netevent.Packet.Laws.{event_packet_read, device_packets_read}
use netevent.Device.{InputId, AbsInfo, name_size, bit_length}
use netevent.Device.In.{InDevice, write_ne2_add_device}
use netevent.Device.Out.{Uinput, ok, opened, set_up, new_from_ne2_add_command, c_name}
use netevent.Device.Transfer.Spec.{IdFits, AbsFits, answering, described, concat, event_types}
use netevent.Device.Transfer.Read.{Works}
use netevent.Device.Transfer.Sent.{transfer}
use netevent.Text.Event.{ev_max}

-- Five bytes in two answers.
abbrev two_chunks : List Chunk
two_chunks = got (1 ∷ 2 ∷ []) ∷ got (3 ∷ 4 ∷ 5 ∷ []) ∷ []

must_read_succeeds_example :
    (rest : List Chunk) × (must_read 3 two_chunks ≡ done (take 3 (delivered two_chunks)) rest)
    × (delivered rest ≡ drop 3 (delivered two_chunks))
must_read_succeeds_example = must_read_succeeds 3 two_chunks (unfold delivered in omega arith)

-- Ten bits in two bytes.
abbrev ten_bits : Bits
ten_bits = record { bitcount = 10; bytes = 1 ∷ 2 ∷ [] }

ten_bits-IsValid : IsValid ten_bits
unfolding byte_size
ten_bits-IsValid = record {
  count_fits = omega arith;
  allocated = omega arith;
  all_bytes = ground arith;
}

get_bit-set_bit_example :
    get_bit (set_bit ten_bits 4 true) 9 ≡ (if 9 == 4 then true else get_bit ten_bits 9)
get_bit-set_bit_example = get_bit-set_bit ten_bits 4 9 true ten_bits-IsValid (omega arith)

abbrev allocates : ℕ → Bool
allocates n = true

abbrev four_bits : Bits
four_bits = record { bitcount = 4; bytes = 1 ∷ [] }

ten_to_four : resize allocates 4 ten_bits ≡ some four_bits
unfolding resize netevent.Bits.reallocated byte_size
ten_to_four = refl

resize-Resized_example : Resized 4 ten_bits four_bits
resize-Resized_example =
    resize-Resized allocates 4 ten_bits four_bits ten_bits-IsValid (omega arith) ten_to_four

-- A key press.
abbrev press : InputEvent
press = record { tv_sec = 7; tv_usec = 5; type = 1; code = 272; value = 1; padding = replicate 4 0 }

press-IsValid : Packet.IsValid press
press-IsValid = record {
  sec_fits = omega arith;
  usec_fits = omega arith;
  type_fits = omega arith;
  code_fits = omega arith;
  value_fits = omega arith;
  padding_size = refl;
}

event_packet_read_example :
    (length (event_packet 3 press) ≡ packet_size)
    × (packet_cmd (event_packet 3 press) ≡ command_code device_event)
    × (packet_id (event_packet 3 press) ≡ 3)
    × (to_host (drop 4 (event_packet 3 press)) ≡ press)
event_packet_read_example = event_packet_read 3 press (omega arith) press-IsValid

device_packets_read_example :
    ((length (remove_packet 3) ≡ packet_size)
      × (packet_cmd (remove_packet 3) ≡ command_code remove_device)
      × (packet_id (remove_packet 3) ≡ 3))
    × ((length (add_packet 3 1116 80) ≡ packet_size)
        × (packet_cmd (add_packet 3 1116 80) ≡ command_code add_device)
        × (packet_id (add_packet 3 1116 80) ≡ 3)
        × (be16toh (drop 4 (add_packet 3 1116 80)) ≡ 1116)
        × (be16toh (drop 6 (add_packet 3 1116 80)) ≡ 80))
device_packets_read_example =
    device_packets_read 3 1116 80 (omega arith) (omega arith) (omega arith)

-- A driver, a kernel and a device with keys and axes.
abbrev pub driver : Uinput
driver = record { open_node = λ i. opened 5; setup_device = set_up; accepts = λ r. true }

pub driver-Works : Works driver 5
driver-Works = record { node_opens = refl; sets_up = refl; accepts = λ r. refl }

abbrev pub some_codes : ℕ → Bytes
some_codes ev = replicate (byte_size (bit_length ev * 64)) 5

pub some_codes-length : (ev : ℕ) → length (some_codes ev) ≡ byte_size (bit_length ev * 64)
some_codes-length ev = length-replicate (byte_size (bit_length ev * 64)) 5

abbrev pub an_axis : ℕ → AbsInfo
an_axis i = record { value = 1; minimum = 0; maximum = 255; fuzz = 0; flat = 15; resolution = 0 }

pub an_axis-AbsFits : (i : ℕ) → AbsFits (an_axis i)
an_axis-AbsFits i = record {
  value_fits = omega arith;
  minimum_fits = omega arith;
  maximum_fits = omega arith;
  fuzz_fits = omega arith;
  flat_fits = omega arith;
  resolution_fits = omega arith;
}

abbrev pub pad_name : Bytes
pad_name = codes "pad" ++ replicate 77 0

abbrev pub pad_id : InputId
pad_id = record { bustype = 3; vendor = 0x45e; product = 0x28e; version = 0x110 }

pub pad_id-IdFits : IdFits pad_id
pad_id-IdFits = record {
  bustype_fits = omega arith;
  vendor_fits = omega arith;
  product_fits = omega arith;
  version_fits = omega arith;
}

-- SYN, KEY and ABS.
abbrev pub pad_events : Bytes
pad_events = 11 ∷ 0 ∷ 0 ∷ 0 ∷ []

abbrev pub pad : InDevice
pad = record {
  fd = 4;
  eof = false;
  grabbing = false;
  persistent = false;
  dev_name = pad_name;
  dev_id = pad_id;
  name = codes "pad";
  evbits = event_types pad_events;
}

pub pad_name_ends : length (c_name pad_name) < name_size
unfolding c_name
pad_name_ends = omega arith

pub four_bytes : length pad_events ≡ byte_size ev_max
unfolding byte_size
four_bytes = refl

transfer_example :
    let w = write_ne2_add_device (answering some_codes an_axis) 2 pad in
    let stream = concat w.sent ++ [] in
    (w.finished ≡ true)
    × (new_from_ne2_add_command driver true false
          (take packet_size stream)
          (drop packet_size stream)
        ≡ ok (some (described 5 some_codes an_axis pad_name pad_id pad_events), true) [])
transfer_example =
    transfer driver 5 true some_codes an_axis 2 pad pad_events [] driver-Works some_codes-length
      an_axis-AbsFits refl pad_name_ends pad_id-IdFits refl four_bytes
