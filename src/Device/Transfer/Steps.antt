-- ===== src/Device/Transfer/Steps.antt =====
-- The stages of `newFromNE2AddCommand`, on a stream that starts with what they read.
use netevent.Prelude.{
  ℕ, ◌*◌, ◌%◌, ◌^◌, ◌≡◌, inl, inr, refl, ◌∙◌, Bool, true, false, List, [], ◌∷◌, ◌++◌, some, Bytes,
  length, leb, ◌==◌, if◌then◌else◌, arith, append_assoc, append-nil, take-append, drop-append,
  length-append, Bool-cases,
}
use netevent.Bits.{Bits, byte_size, set_bits}
use netevent.Wire.{htobe16, htobe32, be16toh, be32toh, be16toh-htobe16, length-htobe16}
use netevent.Text.Event.{ev_ff}
use netevent.Device.{
  InputId, AbsInfo, ev_abs, bit_length, ui_set_bit_ioc, id_to_net, id_to_host, abs_to_net,
  abs_to_host,
}
use netevent.Device.Out.{
  stored_axis, Uinput, Request, OutDevice, Reader, ok, bind-ok, must_read, set_event_bits,
  set_event_bit_of, set_code_bits, set_generic_bit, setup_absolute_axis, create, read_entry,
  read_entries, read_axes, when_dev,
}
use netevent.Device.Transfer.Spec.{
  stored_axes, IdFits, AbsFits, without_ff, with_ioc, entry, axis_bits, entry_bytes, axis_bytes,
  axes_of, codes_of,
}

pub must_read-append : (n : ℕ) (b r : Bytes) → length b ≡ n → must_read n (b ++ r) ≡ ok b r
unfolding must_read
must_read-append n b r h =
    let e : leb n (length (b ++ r)) ≡ true = ground (arith, length-append b r) in
    rw (e, take-append n b r h, drop-append n b r h)

pub id_to_host-id_to_net : (i : InputId) → IdFits i → id_to_host (id_to_net i) ≡ i
unfolding id_to_host id_to_net htobe16 be16toh
id_to_host-id_to_net i f = ground arith

pub abs_to_host-abs_to_net : (a : AbsInfo) → AbsFits a → abs_to_host (abs_to_net a) ≡ a
unfolding abs_to_host abs_to_net htobe32 be32toh
abs_to_host-abs_to_net a f = ground arith

pub length-abs_to_net : (a : AbsInfo) → length (abs_to_net a) ≡ 24
unfolding abs_to_net htobe32
length-abs_to_net a = refl

pub length-id_to_net : (i : InputId) → length (id_to_net i) ≡ 8
unfolding id_to_net htobe16
length-id_to_net i = refl

pub when_dev-some :
    (f : OutDevice → Reader OutDevice) (d : OutDevice) (s : Bytes) {d' : OutDevice} {t : Bytes}
    → f d s ≡ ok d' t
    → when_dev f (some d) s ≡ ok (some d') t
when_dev-some f d s h = bind-ok (f d) _ s h refl

pub count_read : (ev : ℕ) → be16toh (htobe16 (bit_length ev * 64 % 2 ^ 16)) ≡ bit_length ev * 64
unfolding bit_length
count_read ev = be16toh-htobe16 _ (omega arith) ∙ ground arith

-- All requests to the driver succeed.
module _ (u : Uinput) (accepts : (r : Request) → u.accepts r ≡ true) where
  pub set_event_bit_all :
      (ev : ℕ) (d : OutDevice) (s : Bytes)
      → d.created ≡ false
      → set_event_bit_of u ev d s ≡ ok (record d { events = d.events ++ (ev ∷ []) }) s
  unfolding set_event_bit_of
  set_event_bit_all ev d s c = ground (arith, accepts (Request.set_event_bit ev))

  pub set_event_bits_all :
      (evs : List ℕ) (d : OutDevice) (s : Bytes)
      → d.created ≡ false
      → set_event_bits u evs d s ≡ ok (record d { events = d.events ++ without_ff evs }) s
  unfolding set_event_bits
  set_event_bits_all [] d s c = rw append-nil
  set_event_bits_all (ev ∷ evs) d s c = elim (Bool-cases (ev == ev_ff)) [
    | inl ff ↦ rw ff (set_event_bits_all evs d s c)
    | inr other ↦ rw other (
        bind-ok (set_event_bit_of u ev d) (set_event_bits u evs) s (set_event_bit_all ev d s c) (
          set_event_bits_all evs (record d { events = d.events ++ (ev ∷ []) }) s c
          ∙ rw append_assoc))
  ]

  set_generic_bit_all :
      (ioc bit : ℕ) (d : OutDevice) (s : Bytes)
      → d.created ≡ false
      → set_generic_bit u ioc bit d s ≡ ok (record d { codes = d.codes ++ ((ioc, bit) ∷ []) }) s
  unfolding set_generic_bit
  set_generic_bit_all ioc bit d s c = ground (arith, accepts (Request.set_code_bit ioc bit))

  pub set_code_bits_all :
      (ioc : ℕ) (bits : List ℕ) (d : OutDevice) (s : Bytes)
      → d.created ≡ false
      → set_code_bits u ioc bits d s ≡ ok (record d { codes = d.codes ++ with_ioc ioc bits }) s
  unfolding set_code_bits
  set_code_bits_all ioc [] d s c = rw append-nil
  set_code_bits_all ioc (bit ∷ bits) d s c =
      bind-ok (set_generic_bit u ioc bit d) (set_code_bits u ioc bits) s
        (set_generic_bit_all ioc bit d s c)
        (set_code_bits_all ioc bits (record d { codes = d.codes ++ ((ioc, bit) ∷ []) }) s c
          ∙ rw append_assoc)

  pub setup_absolute_axis_all :
      (modern : Bool) (i : ℕ) (a : AbsInfo) (d : OutDevice) (s : Bytes)
      → d.created ≡ false
      → setup_absolute_axis u modern i a d s
        ≡ ok (record d { axes = d.axes ++ ((i, stored_axis modern a) ∷ []) }) s
  unfolding setup_absolute_axis
  setup_absolute_axis_all modern i a d s c = ground (arith, accepts (Request.setup_axis i a))

  pub create_all :
      (modern : Bool) (d : OutDevice) (s : Bytes)
      → create u modern d s ≡ ok (record d { created = true }) s
  unfolding create
  create_all modern d s = ground (arith, accepts Request.create_device, accepts Request.upload)

  module _ (bits_of : ℕ → Bytes)
      (full : (ev : ℕ) → length (bits_of ev) ≡ byte_size (bit_length ev * 64)) where
    read_entry_all :
        (ev : ℕ) (d : OutDevice) (r : Bytes)
        → d.created ≡ false
        → read_entry u ev (some d) (bit_length ev * 64) (bits_of ev ++ r)
          ≡ ok
              (
                some (record d {
                  codes = d.codes ++ with_ioc (ui_set_bit_ioc ev) (set_bits (entry bits_of ev));
                }),
                entry bits_of ev,
              )
              r
    unfolding read_entry
    read_entry_all ev d r c =
        bind-ok (must_read (byte_size (bit_length ev * 64))) _ _
          (must_read-append (byte_size (bit_length ev * 64)) (bits_of ev) r (full ev))
          (bind-ok
            (when_dev (set_code_bits u (ui_set_bit_ioc ev) (set_bits (entry bits_of ev))) (some d))
            _ _
            (when_dev-some (set_code_bits u (ui_set_bit_ioc ev) (set_bits (entry bits_of ev))) d r
              (set_code_bits_all (ui_set_bit_ioc ev) (set_bits (entry bits_of ev)) d r c))
            refl)

    pub read_entries_all :
        (evs : List ℕ) (d : OutDevice) (absbits : Bits) (r : Bytes)
        → d.created ≡ false
        → read_entries u evs (some d) absbits (entry_bytes bits_of evs ++ r)
          ≡ ok
              (
                some (record d { codes = d.codes ++ codes_of bits_of evs }),
                axis_bits bits_of evs absbits,
              )
              r
    unfolding read_entries
    read_entries_all [] d absbits r c = rw append-nil
    read_entries_all (ev ∷ evs) d absbits r c =
        rw
          (
            append_assoc (htobe16 (bit_length ev * 64 % 2 ^ 16))
                (bits_of ev ++ entry_bytes bits_of evs) r,
            append_assoc (bits_of ev) (entry_bytes bits_of evs) r,
          )
          (bind-ok (must_read 2) _ _
            (must_read-append 2 (htobe16 (bit_length ev * 64 % 2 ^ 16)) _ (length-htobe16 _))
            (bind-ok (read_entry u ev (some d) (be16toh (htobe16 (bit_length ev * 64 % 2 ^ 16)))) _
              _ (rw (count_read ev) (read_entry_all ev d (entry_bytes bits_of evs ++ r) c))
              (read_entries_all evs
                  (record d {
                    codes = d.codes ++ with_ioc (ui_set_bit_ioc ev) (set_bits (entry bits_of ev));
                  })
                  (if ev == ev_abs then entry bits_of ev else absbits) r c
                ∙ rw append_assoc)))

  module _ (modern : Bool) (abs_of : ℕ → AbsInfo) (fits : (i : ℕ) → AbsFits (abs_of i)) where
    pub read_axes_all :
        (is : List ℕ) (d : OutDevice) (r : Bytes)
        → d.created ≡ false
        → read_axes u modern is (some d) (axis_bytes abs_of is ++ r)
          ≡ ok (some (record d { axes = d.axes ++ axes_of (stored_axes modern abs_of) is })) r
    unfolding read_axes
    read_axes_all [] d r c = rw append-nil
    read_axes_all (i ∷ is) d r c = rw append_assoc (
        bind-ok (must_read 24) _ _
          (must_read-append 24 (abs_to_net (abs_of i)) _ (length-abs_to_net (abs_of i)))
          (rw (abs_to_host-abs_to_net (abs_of i) (fits i)) (
            bind-ok (when_dev (setup_absolute_axis u modern i (abs_of i)) (some d)) _ _
              (when_dev-some (setup_absolute_axis u modern i (abs_of i)) d
                (axis_bytes abs_of is ++ r)
                (setup_absolute_axis_all modern i (abs_of i) d (axis_bytes abs_of is ++ r) c))
              (read_axes_all is
                  (record d { axes = d.axes ++ ((i, stored_axis modern (abs_of i)) ∷ []) }) r c
                ∙ rw append_assoc))))
