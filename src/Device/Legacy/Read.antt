-- ===== src/Device/Legacy/Read.antt =====
-- What the receiver of version 1 reads of a header.
use netevent.Prelude.{
  ℕ, ◌^◌, ◌<◌, ◌≡◌, refl, Bool, false, [], ◌++◌, Bytes, length, ◌==◌, if◌then◌else◌,
}
use netevent.Bits.{Bits, byte_size, get_bit, set_bits, shrink_to, empty}
use netevent.Text.Event.{ev_max}
use netevent.Device.{InputId, AbsInfo, name_size, info_size, ev_abs}
use netevent.Device.Out.{
  Uinput, OutDevice, ok, bind-ok, ensure, must_read, c_name, new_out_device, create,
  info_size_mismatch,
}
use netevent.Device.Transfer.Spec.{stored_axes, IdFits, AbsFits}
use netevent.Device.Transfer.Steps.{must_read-append, create_all}
use netevent.Device.Transfer.Read.{Works, new_out_device_lem, ensure_holds}
use netevent.Device.Legacy.{
  Layout, entry_types, state_types, ne1_count, read_ne1, set_all_events, read_ne1_entries,
  read_ne1_states, read_all_axes, axes_if, clear_ff, new_from_netevent_stream,
}
use netevent.Device.Legacy.Spec.{
  plain_types, ne1_codes, ne1_axis_bits, fetched, all_axis_bytes, ne1_described,
}
use netevent.Device.Legacy.Steps.{
  read_ne1_states_all, set_all_events_all, read_ne1_entries_all, axes_if_all,
}

module _ (layout : Layout) where
  -- The event types behind `shrinkTo` and the end of force feedback.
  plain_bits :
      (max_of : ℕ → ℕ) (evs : Bytes)
      → clear_ff layout max_of
          (shrink_to ev_max (record { bitcount = ne1_count ev_max; bytes = evs }))
        ≡ plain_types evs
  unfolding shrink_to
  plain_bits max_of evs = refl

  read_types :
      (max_of : ℕ → ℕ) (evs r : Bytes)
      → length evs ≡ byte_size ev_max
      → read_ne1 layout max_of ev_max (evs ++ r)
        ≡ ok (record { bitcount = ne1_count ev_max; bytes = evs }) r
  unfolding read_ne1 byte_size
  read_types max_of evs r l =
      bind-ok (must_read (byte_size (ne1_count ev_max))) _ _
        (must_read-append (byte_size (ne1_count ev_max)) evs r l) refl

  module _ (max_of : ℕ → ℕ) (u : Uinput) (fd : ℕ) (works : Works u fd)
      (small : (ev : ℕ) → max_of ev < 2 ^ 16) (bits_of states_of : ℕ → Bytes)
      (full : (ev : ℕ) → length (bits_of ev) ≡ byte_size (ne1_count (max_of ev)))
      (states_full : (ev : ℕ) → length (states_of ev) ≡ byte_size (ne1_count (max_of ev)))
      (abs_of : ℕ → AbsInfo) (fits : (i : ℕ) → AbsFits (abs_of i)) where
    abbrev axes_part : Bytes → Bytes
    axes_part evs =
        if get_bit (plain_types evs) ev_abs
        then all_axis_bytes abs_of layout 0 (max_of ev_abs)
        else []

    blank_read :
        (modern : Bool) (name : Bytes) (id : InputId) (s : Bytes)
        → length name < name_size
        → IdFits id
        → new_out_device u modern name (layout.read_id (layout.id_image id)) s
          ≡ ok
              (
                record {
                  fd = fd;
                  name = name;
                  id = id;
                  events = [];
                  codes = [];
                  axes = [];
                  created = false;
                },
                modern,
              )
              s
    blank_read modern name id s h f =
        rw (layout.read_id_image id f) (new_out_device_lem u fd modern name id s works h)

    pub new_from_netevent_stream-read :
        (modern : Bool) (name : Bytes) (id : InputId) (evs rest : Bytes)
        → length name ≡ name_size
        → length (c_name name) < name_size
        → IdFits id
        → length evs ≡ byte_size ev_max
        → new_from_netevent_stream layout max_of u modern (
            layout.size_image info_size
            ++ (name
                ++ (layout.id_image id
                    ++ (evs
                        ++ (fetched bits_of (plain_types evs) entry_types
                            ++ (fetched states_of (plain_types evs) state_types
                                ++ (axes_part evs ++ rest)))))))
          ≡ ok
              (ne1_described fd max_of bits_of (stored_axes modern abs_of) name id evs, modern)
              rest
    unfolding new_from_netevent_stream
    new_from_netevent_stream-read modern name id evs rest hn hc hi l =
        let types : Bits = plain_types evs in
        let blank : OutDevice = record {
          fd = fd;
          name = c_name name;
          id = id;
          events = [];
          codes = [];
          axes = [];
          created = false;
        } in
        let with_events : OutDevice = record blank { events = set_bits types } in
        let with_codes : OutDevice = record with_events {
          codes = ne1_codes max_of bits_of types entry_types;
        } in
        let absbits : Bits = ne1_axis_bits max_of bits_of types entry_types empty in
        bind-ok (must_read 2) _ _
          (must_read-append 2 (layout.size_image info_size) _ (layout.length-size_image info_size))
          (bind-ok
            (ensure (layout.read_size (layout.size_image info_size) == info_size)
              info_size_mismatch)
            _ _ (ensure_holds _ _ _ (rw layout.read_size_image refl))
            (bind-ok (must_read name_size) _ _ (must_read-append name_size name _ hn) (
              bind-ok (must_read 8) _ _
                (must_read-append 8 (layout.id_image id) _ (layout.length-id_image id))
                (bind-ok
                  (new_out_device u modern (c_name name) (layout.read_id (layout.id_image id))) _ _
                  (blank_read modern (c_name name) id _ hc hi)
                  (bind-ok (read_ne1 layout max_of ev_max) _ _ (read_types max_of evs _ l) (
                    rw (plain_bits max_of evs) (
                      bind-ok (set_all_events layout max_of u (set_bits types) blank) _ _
                        (set_all_events_all layout max_of small bits_of full u works.accepts
                          (set_bits types) blank _ refl)
                        (bind-ok
                          (read_ne1_entries layout max_of u types entry_types with_events empty) _ _
                          (read_ne1_entries_all layout max_of small bits_of full u works.accepts
                            types entry_types with_events empty _ refl)
                          (bind-ok (read_ne1_states layout max_of types state_types) _ _
                            (read_ne1_states_all layout max_of small bits_of full states_of types
                              state_types _ states_full)
                            (bind-ok
                              (axes_if layout max_of (get_bit types ev_abs)
                                (read_all_axes layout max_of u modern absbits 0 (max_of ev_abs))
                                with_codes)
                              _ _
                              (axes_if_all layout max_of small bits_of full u works.accepts abs_of
                                fits modern (get_bit types ev_abs) absbits with_codes rest refl)
                              (bind-ok (create u modern _) _ _
                                (create_all u works.accepts modern _ rest) refl)))))))))))
