-- ===== src/Device/Transfer/Read.antt =====
-- The reader of an announcement accepts it, and makes the device that it describes.
use netevent.Prelude.{
  ℕ, ◌*◌, ◌<◌, ◌≡◌, refl, Bool, true, false, [], some, Bytes, length, drop, ◌==◌, arith,
}
use netevent.Bits.{byte_size, set_bits, empty, reallocated}
use netevent.Wire.{htobe16, be16toh, length-htobe16}
use netevent.Packet.{add_packet, packet_cmd, command_code, add_device}
use netevent.Text.Event.{ev_max}
use netevent.Device.{
  InputId, AbsInfo, name_size, info_size, bit_length, transferred, id_to_net, id_to_host,
}
use netevent.Device.Out.{
  Uinput, Request, OutDevice, ok, opened, must_read, c_name, open_uinput, setup, new_out_device,
  set_event_bits, create, read_entries, read_axes, maybe_new, new_from_ne2_add_command, when_dev,
}
use netevent.Device.Out.{
  set_up, when_dev, bind-ok, ensure, wrong_packet, info_size_mismatch, name_size_mismatch,
  type_count_mismatch,
}
use netevent.Device.Transfer.Spec.{
  stored_axes, IdFits, AbsFits, without_ff, axes_of, codes_of, event_types, announced_axes,
  described, announcement,
}
use netevent.Device.Transfer.Steps.{
  must_read-append, id_to_host-id_to_net, length-id_to_net, set_event_bits_all, read_entries_all,
  read_axes_all, create_all, when_dev-some,
}

-- The driver's first node opens, the set-up request works and every other request succeeds.
pub record Works (u : Uinput) (fd : ℕ) : Type 0 where
  pub node_opens : u.open_node 0 ≡ opened fd
  pub sets_up : u.setup_device ≡ set_up
  pub accepts : (r : Request) → u.accepts r ≡ true

pub new_out_device_lem :
    (u : Uinput) (fd : ℕ) (modern : Bool) (name : Bytes) (id : InputId) (s : Bytes)
    → Works u fd
    → length name < name_size
    → new_out_device u modern name id s
      ≡ ok
          (
            record {
              fd = fd;
              name = name;
              id = id;
              events = [];
              codes = [];
              axes = [];
              created = false;
            },
            modern,
          )
          s
unfolding new_out_device open_uinput setup
new_out_device_lem u fd true name id s w h = ground (arith, w.node_opens, w.sets_up)
new_out_device_lem u fd false name id s w h = ground (arith, w.node_opens, w.sets_up)

maybe_new_lem :
    (u : Uinput) (fd : ℕ) (modern : Bool) (name : Bytes) (id : InputId) (s : Bytes)
    → Works u fd
    → length name < name_size
    → maybe_new u modern false name id s
      ≡ ok
          (
            some (record {
              fd = fd;
              name = name;
              id = id;
              events = [];
              codes = [];
              axes = [];
              created = false;
            }),
            modern,
          )
          s
unfolding maybe_new
maybe_new_lem u fd modern name id s w h =
    bind-ok (new_out_device u modern name id) _ s (new_out_device_lem u fd modern name id s w h)
      refl

maybe_new_read :
    (u : Uinput) (fd : ℕ) (modern : Bool) (name : Bytes) (id : InputId) (s : Bytes)
    → Works u fd
    → length name < name_size
    → IdFits id
    → maybe_new u modern false name (id_to_host (id_to_net id)) s
      ≡ ok
          (
            some (record {
              fd = fd;
              name = name;
              id = id;
              events = [];
              codes = [];
              axes = [];
              created = false;
            }),
            modern,
          )
          s
maybe_new_read u fd modern name id s w h f =
    rw (id_to_host-id_to_net id f) (maybe_new_lem u fd modern name id s w h)

pub packet_checks :
    (id : ℕ)
    → ((packet_cmd (add_packet id info_size name_size) == command_code add_device) ≡ true)
      × ((be16toh (drop 4 (add_packet id info_size name_size)) == info_size) ≡ true)
      × ((be16toh (drop 6 (add_packet id info_size name_size)) == name_size) ≡ true)
unfolding packet_cmd add_packet be16toh htobe16
packet_checks id = (refl, refl, refl)

pub ensure_holds : (b : Bool) (e : _) (s : Bytes) → b ≡ true → ensure b e s ≡ ok tt s
ensure_holds true e s h = refl
ensure_holds false e s h = absurd (cc h)

pub no_state : length (reallocated ev_max empty).bytes ≡ byte_size ev_max
unfolding reallocated byte_size
no_state = refl

pub type_count : (be16toh (htobe16 ev_max) == ev_max) ≡ true
unfolding be16toh htobe16
type_count = refl

-- The announcement of a device, whatever follows it on the stream, makes exactly the device that it
-- describes, with the data of its axes as far as the driver takes them, and is consumed exactly, on a driver that works.
pub new_from_ne2_add_command-announcement :
    (u : Uinput) (fd : ℕ) (modern : Bool) (bits_of : ℕ → Bytes) (abs_of : ℕ → AbsInfo) (number : ℕ)
    (name : Bytes) (id : InputId) (evs rest : Bytes)
    → Works u fd
    → ((ev : ℕ) → length (bits_of ev) ≡ byte_size (bit_length ev * 64))
    → ((i : ℕ) → AbsFits (abs_of i))
    → length name ≡ name_size
    → length (c_name name) < name_size
    → IdFits id
    → length evs ≡ byte_size ev_max
    → new_from_ne2_add_command u modern false
        (add_packet number info_size name_size)
        (announcement bits_of abs_of name id evs rest)
      ≡ ok (some (described fd bits_of (stored_axes modern abs_of) name id evs), modern) rest
unfolding new_from_ne2_add_command
new_from_ne2_add_command-announcement u fd modern bits_of abs_of number name id evs rest w full fits
      hn hc hi he =
    let p = add_packet number info_size name_size in
    let types = set_bits (event_types evs) in
    let blank : OutDevice = record {
      fd = fd;
      name = c_name name;
      id = id;
      events = [];
      codes = [];
      axes = [];
      created = false;
    } in
    let with_events : OutDevice = record blank { events = without_ff types } in
    let with_codes : OutDevice = record with_events {
      codes = codes_of bits_of (transferred types);
    } in
    let axes = announced_axes bits_of evs in
    let with_axes : OutDevice = record with_codes {
      axes = axes_of (stored_axes modern abs_of) axes;
    } in
    bind-ok (ensure (packet_cmd p == command_code add_device) wrong_packet) _ _
      (ensure_holds _ _ _ (packet_checks number).0)
      (bind-ok (ensure (be16toh (drop 4 p) == info_size) info_size_mismatch) _ _
        (ensure_holds _ _ _ (packet_checks number).1)
        (bind-ok (ensure (be16toh (drop 6 p) == name_size) name_size_mismatch) _ _
          (ensure_holds _ _ _ (packet_checks number).2)
          (bind-ok (must_read name_size) _ _ (must_read-append name_size name _ hn) (
            bind-ok (must_read 8) _ _ (must_read-append 8 (id_to_net id) _ (length-id_to_net id)) (
              bind-ok (maybe_new u modern false (c_name name) (id_to_host (id_to_net id))) _ _
                (maybe_new_read u fd modern (c_name name) id _ w hc hi)
                (bind-ok (must_read 2) _ _
                  (must_read-append 2 (htobe16 ev_max) _ (length-htobe16 ev_max))
                  (bind-ok (ensure (be16toh (htobe16 ev_max) == ev_max) type_count_mismatch) _ _
                    (ensure_holds _ _ _ type_count)
                    (bind-ok (must_read (byte_size ev_max)) _ _
                      (must_read-append (byte_size ev_max) evs _ he)
                      (bind-ok (when_dev (set_event_bits u types) (some blank)) _ _
                        (when_dev-some (set_event_bits u types) blank _
                          (set_event_bits_all u w.accepts types blank _ refl))
                        (bind-ok (read_entries u (transferred types) (some with_events) empty) _ _
                          (read_entries_all u w.accepts bits_of full (transferred types) with_events
                            empty _ refl)
                          (bind-ok (read_axes u modern axes (some with_codes)) _ _
                            (read_axes_all u w.accepts modern abs_of fits axes with_codes _ refl)
                            (bind-ok (must_read (byte_size ev_max)) _ _
                              (must_read-append (byte_size ev_max) (reallocated ev_max empty).bytes
                                rest no_state)
                              (bind-ok (when_dev (create u modern) (some with_axes)) _ _
                                (when_dev-some (create u modern) with_axes rest
                                  (create_all u w.accepts modern with_axes rest))
                                refl)))))))))))))
