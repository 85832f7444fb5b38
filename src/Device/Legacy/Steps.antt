-- ===== src/Device/Legacy/Steps.antt =====
-- The stages of `newFromNeteventStream`, on a stream that starts with what they read.
use netevent.Prelude.{
  ℕ, zero, suc, ◌^◌, ◌<◌, ◌≡◌, refl, ◌∙◌, inl, inr, Bool, true, false, List, [], ◌∷◌, ◌++◌, Bytes,
  length, ltb, ◌==◌, if◌then◌else◌, arith, Bool-cases, append_assoc, append-nil,
}
use netevent.Bits.{Bits, byte_size, get_bit, set_bits, shrink_to}
use netevent.Device.{AbsInfo, ev_abs, ui_set_bit_ioc}
use netevent.Device.Out.{
  stored_axis, Uinput, OutDevice, ok, bind-ok, must_read, set_event_bit_of, set_code_bits,
}
use netevent.Device.Transfer.Spec.{stored_axes, AbsFits}
use netevent.Device.Transfer.Steps.{
  must_read-append, set_event_bit_all, set_code_bits_all, setup_absolute_axis_all,
}
use netevent.Device.Legacy.{
  Layout, ne1_count, read_ne1, set_all_events, read_ne1_entries, read_ne1_states, axis_if,
  read_all_axes, axes_if,
}
use netevent.Device.Legacy.Spec.{
  codes_below, ne1_codes, ne1_axis_bits, fetched, all_axis_bytes, set_axes,
}

module _ (layout : Layout) (max_of : ℕ → ℕ) where
  -- The stages of the reader, on a driver whose requests succeed.
  module _ (small : (ev : ℕ) → max_of ev < 2 ^ 16) (bits_of : ℕ → Bytes)
      (full : (ev : ℕ) → length (bits_of ev) ≡ byte_size (ne1_count (max_of ev))) where
    pub read_ne1-append :
        (answer : ℕ → Bytes) (ev : ℕ) (r : Bytes)
        → length (answer ev) ≡ byte_size (ne1_count (max_of ev))
        → read_ne1 layout max_of (max_of ev) (answer ev ++ r)
          ≡ ok (record { bitcount = ne1_count (max_of ev); bytes = answer ev }) r
    unfolding read_ne1
    read_ne1-append answer ev r h =
        bind-ok (must_read (byte_size (ne1_count (max_of ev)))) _ _
          (must_read-append (byte_size (ne1_count (max_of ev))) (answer ev) r h) refl

    shrunk :
        (ev : ℕ)
        → shrink_to (max_of ev) (record { bitcount = ne1_count (max_of ev); bytes = bits_of ev })
          ≡ codes_below max_of bits_of ev
    unfolding shrink_to
    shrunk ev =
        let s : max_of ev < 2 ^ 16 = small ev in
        let less : ltb (max_of ev) (ne1_count (max_of ev)) ≡ true = ground arith in rw less refl

    pub read_ne1_states_all :
        (answer : ℕ → Bytes) (types : Bits) (evs : List ℕ) (r : Bytes)
        → ((ev : ℕ) → length (answer ev) ≡ byte_size (ne1_count (max_of ev)))
        → read_ne1_states layout max_of types evs (fetched answer types evs ++ r) ≡ ok tt r
    unfolding read_ne1_states
    read_ne1_states_all answer types [] r h = refl
    read_ne1_states_all answer types (ev ∷ evs) r h = elim (Bool-cases (get_bit types ev)) [
      | inl e ↦
          rw (e, append_assoc (answer ev) (fetched answer types evs) r, read_ne1_states)
            (bind-ok (read_ne1 layout max_of (max_of ev)) _ _
              (read_ne1-append answer ev (fetched answer types evs ++ r) (h ev))
              (read_ne1_states_all answer types evs r h))
      | inr e ↦ rw (e, read_ne1_states) (read_ne1_states_all answer types evs r h)
    ]

    module _ (u : Uinput) (accepts : (r : _) → u.accepts r ≡ true) where
      pub set_all_events_all :
          (evs : List ℕ) (d : OutDevice) (s : Bytes)
          → d.created ≡ false
          → set_all_events layout max_of u evs d s ≡ ok (record d { events = d.events ++ evs }) s
      unfolding set_all_events
      set_all_events_all [] d s c = rw append-nil
      set_all_events_all (ev ∷ evs) d s c =
          bind-ok (set_event_bit_of u ev d) (set_all_events layout max_of u evs) s
            (set_event_bit_all u accepts ev d s c)
            (set_all_events_all evs (record d { events = d.events ++ (ev ∷ []) }) s c
              ∙ rw append_assoc)

      pub read_ne1_entries_all :
          (types : Bits) (evs : List ℕ) (d : OutDevice) (absbits : Bits) (r : Bytes)
          → d.created ≡ false
          → read_ne1_entries layout max_of u types evs d absbits (fetched bits_of types evs ++ r)
            ≡ ok
                (
                  record d { codes = d.codes ++ ne1_codes max_of bits_of types evs },
                  ne1_axis_bits max_of bits_of types evs absbits,
                )
                r
      unfolding read_ne1_entries
      read_ne1_entries_all types [] d absbits r c = rw append-nil
      read_ne1_entries_all types (ev ∷ evs) d absbits r c = elim (Bool-cases (get_bit types ev)) [
        | inl e ↦
            rw (e, append_assoc (bits_of ev) (fetched bits_of types evs) r, read_ne1_entries)
              (bind-ok (read_ne1 layout max_of (max_of ev)) _ _
                (read_ne1-append bits_of ev (fetched bits_of types evs ++ r) (full ev))
                (rw (shrunk ev) (
                  bind-ok
                    (set_code_bits u (ui_set_bit_ioc ev) (set_bits (codes_below max_of bits_of ev))
                      d)
                    _ _
                    (set_code_bits_all u accepts (ui_set_bit_ioc ev)
                      (set_bits (codes_below max_of bits_of ev)) d (fetched bits_of types evs ++ r)
                      c)
                    (read_ne1_entries_all types evs _
                        (if ev == ev_abs then codes_below max_of bits_of ev else absbits) r c
                      ∙ rw append_assoc))))
        | inr e ↦ rw (e, read_ne1_entries) (read_ne1_entries_all types evs d absbits r c)
      ]

      axis_if_all :
          (modern b : Bool) (i : ℕ) (a : AbsInfo) (d : OutDevice) (s : Bytes)
          → d.created ≡ false
          → axis_if layout max_of u modern b i a d s
            ≡ ok
                (record d { axes = d.axes ++ (if b then (i, stored_axis modern a) ∷ [] else []) })
                s
      axis_if_all modern true i a d s c = setup_absolute_axis_all u accepts modern i a d s c
      axis_if_all modern false i a d s c = rw append-nil

      module _ (abs_of : ℕ → AbsInfo) (fits : (i : ℕ) → AbsFits (abs_of i)) where
        read_all_axes_all :
            (modern : Bool) (absbits : Bits) (i n : ℕ) (d : OutDevice) (r : Bytes)
            → d.created ≡ false
            → read_all_axes layout max_of u modern absbits i n d
                (all_axis_bytes abs_of layout i n ++ r)
              ≡ ok
                  (record d { axes = d.axes ++ set_axes (stored_axes modern abs_of) absbits i n })
                  r
        unfolding read_all_axes
        read_all_axes_all modern absbits i zero d r c = rw append-nil
        read_all_axes_all modern absbits i (suc n) d r c = rw append_assoc (
            bind-ok (must_read 24) _ _
              (must_read-append 24 (layout.abs_image (abs_of i)) _
                (layout.length-abs_image (abs_of i)))
              (rw (layout.read_abs_image (abs_of i) (fits i)) (
                bind-ok (axis_if layout max_of u modern (get_bit absbits i) i (abs_of i) d) _ _
                  (axis_if_all modern (get_bit absbits i) i (abs_of i) d _ c)
                  (read_all_axes_all modern absbits (suc i) n _ r c ∙ rw append_assoc))))

        pub axes_if_all :
            (modern b : Bool) (absbits : Bits) (d : OutDevice) (r : Bytes)
            → d.created ≡ false
            → axes_if layout max_of b
                (read_all_axes layout max_of u modern absbits 0 (max_of ev_abs))
                d
                ((if b then all_axis_bytes abs_of layout 0 (max_of ev_abs) else []) ++ r)
              ≡ ok
                  (record d {
                    axes =
                        d.axes
                        ++ (if b
                            then set_axes (stored_axes modern abs_of) absbits 0 (max_of ev_abs)
                            else []);
                  })
                  r
        axes_if_all modern true absbits d r c =
            read_all_axes_all modern absbits 0 (max_of ev_abs) d r c
        axes_if_all modern false absbits d r c = rw append-nil
