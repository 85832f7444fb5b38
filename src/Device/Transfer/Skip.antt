-- ===== src/Device/Transfer/Skip.antt =====
-- The reader of an announcement in the skipping mode: it makes no device and asks the driver for
-- nothing.
use netevent.Prelude.{
  ℕ, ◌%◌, ◌^◌, ◌≡◌, refl, List, [], ◌∷◌, ◌++◌, none, Bytes, length, drop, true, Bool, ◌==◌,
  if◌then◌else◌, append_assoc, ◌*◌,
}
use netevent.Bits.{Bits, byte_size, set_bits, empty, reallocated}
use netevent.Wire.{htobe16, be16toh, length-htobe16}
use netevent.Packet.{add_packet, packet_cmd, command_code, add_device}
use netevent.Text.Event.{ev_max}
use netevent.Device.{
  InputId, AbsInfo, name_size, info_size, ev_abs, bit_length, transferred, id_to_net, id_to_host,
  abs_to_net,
}
use netevent.Device.Out.{
  Uinput, ok, bind-ok, ensure, must_read, wrong_packet, info_size_mismatch, name_size_mismatch,
  type_count_mismatch, read_entry, read_entries, read_axes, maybe_new, new_from_ne2_add_command,
  c_name,
}
use netevent.Device.Transfer.Spec.{
  entry, axis_bits, entry_bytes, axis_bytes, event_types, announced_axes, announcement,
}
use netevent.Device.Transfer.Steps.{
  must_read-append, length-id_to_net, count_read, length-abs_to_net,
}
use netevent.Device.Transfer.Read.{packet_checks, ensure_holds, no_state, type_count}

module _ (u : Uinput) (bits_of : ℕ → Bytes) (abs_of : ℕ → AbsInfo)
    (full : (ev : ℕ) → length (bits_of ev) ≡ byte_size (bit_length ev * 64)) where
  read_entry_skipped :
      (ev : ℕ) (r : Bytes)
      → read_entry u ev none (bit_length ev * 64) (bits_of ev ++ r) ≡ ok (none, entry bits_of ev) r
  unfolding read_entry
  read_entry_skipped ev r =
      bind-ok (must_read (byte_size (bit_length ev * 64))) _ _
        (must_read-append (byte_size (bit_length ev * 64)) (bits_of ev) r (full ev)) refl

  read_entries_skipped :
      (evs : List ℕ) (absbits : Bits) (r : Bytes)
      → read_entries u evs none absbits (entry_bytes bits_of evs ++ r)
        ≡ ok (none, axis_bits bits_of evs absbits) r
  unfolding read_entries
  read_entries_skipped [] absbits r = refl
  read_entries_skipped (ev ∷ evs) absbits r =
      rw
        (
          append_assoc (htobe16 (bit_length ev * 64 % 2 ^ 16))
              (bits_of ev ++ entry_bytes bits_of evs) r,
          append_assoc (bits_of ev) (entry_bytes bits_of evs) r,
        )
        (bind-ok (must_read 2) _ _
          (must_read-append 2 (htobe16 (bit_length ev * 64 % 2 ^ 16)) _ (length-htobe16 _))
          (bind-ok (read_entry u ev none (be16toh (htobe16 (bit_length ev * 64 % 2 ^ 16)))) _ _
            (rw (count_read ev) (read_entry_skipped ev (entry_bytes bits_of evs ++ r)))
            (read_entries_skipped evs (if ev == ev_abs then entry bits_of ev else absbits) r)))

  read_axes_skipped :
      (modern : Bool) (is : List ℕ) (r : Bytes)
      → read_axes u modern is none (axis_bytes abs_of is ++ r) ≡ ok none r
  unfolding read_axes
  read_axes_skipped modern [] r = refl
  read_axes_skipped modern (i ∷ is) r = rw append_assoc (
      bind-ok (must_read 24) _ _
        (must_read-append 24 (abs_to_net (abs_of i)) _ (length-abs_to_net (abs_of i)))
        (read_axes_skipped modern is r))

  maybe_new_skipped :
      (modern : Bool) (name : Bytes) (id : InputId) (s : Bytes)
      → maybe_new u modern true name id s ≡ ok (none, modern) s
  unfolding maybe_new
  maybe_new_skipped modern name id s = refl

  -- A skipped announcement is consumed exactly, on any driver.
  pub new_from_ne2_add_command-skipped :
      (modern : Bool) (number : ℕ) (name : Bytes) (id : InputId) (evs rest : Bytes)
      → length name ≡ name_size
      → length evs ≡ byte_size ev_max
      → new_from_ne2_add_command u modern true
          (add_packet number info_size name_size)
          (announcement bits_of abs_of name id evs rest)
        ≡ ok (none, modern) rest
  unfolding new_from_ne2_add_command
  new_from_ne2_add_command-skipped modern number name id evs rest hn he =
      let p = add_packet number info_size name_size in
      let types = set_bits (event_types evs) in
      let axes = announced_axes bits_of evs in
      bind-ok (ensure (packet_cmd p == command_code add_device) wrong_packet) _ _
        (ensure_holds _ _ _ (packet_checks number).0)
        (bind-ok (ensure (be16toh (drop 4 p) == info_size) info_size_mismatch) _ _
          (ensure_holds _ _ _ (packet_checks number).1)
          (bind-ok (ensure (be16toh (drop 6 p) == name_size) name_size_mismatch) _ _
            (ensure_holds _ _ _ (packet_checks number).2)
            (bind-ok (must_read name_size) _ _ (must_read-append name_size name _ hn) (
              bind-ok (must_read 8) _ _ (must_read-append 8 (id_to_net id) _ (length-id_to_net id))
                (bind-ok (maybe_new u modern true (c_name name) (id_to_host (id_to_net id))) _ _
                  (maybe_new_skipped modern (c_name name) (id_to_host (id_to_net id)) _)
                  (bind-ok (must_read 2) _ _
                    (must_read-append 2 (htobe16 ev_max) _ (length-htobe16 ev_max))
                    (bind-ok (ensure (be16toh (htobe16 ev_max) == ev_max) type_count_mismatch) _ _
                      (ensure_holds _ _ _ type_count)
                      (bind-ok (must_read (byte_size ev_max)) _ _
                        (must_read-append (byte_size ev_max) evs _ he)
                        (bind-ok (read_entries u (transferred types) none empty) _ _
                          (read_entries_skipped (transferred types) empty _)
                          (bind-ok (read_axes u modern axes none) _ _
                            (read_axes_skipped modern axes _)
                            (bind-ok (must_read (byte_size ev_max)) _ _
                              (must_read-append (byte_size ev_max) (reallocated ev_max empty).bytes
                                rest no_state)
                              refl)))))))))))
