-- ===== src/Device/Transfer/Sent.antt =====
-- What `writeNE2AddDevice` writes, and the whole transfer.
use netevent.Prelude.{
  ℕ, ◌*◌, ◌%◌, ◌^◌, ◌<◌, ◌≡◌, refl, sym, ap, ◌∙◌, Bool, true, false, List, [], ◌∷◌, ◌++◌, some,
  Bytes, length, take, drop, append_assoc, append-nil, take-append, if◌then◌else◌, ◌==◌,
}
use netevent.Bits.{Bits, byte_size, set_bits, empty, reallocated}
use netevent.Wire.{htobe16}
use netevent.Packet.{add_packet, packet_size}
use netevent.Text.Event.{ev_max}
use netevent.Device.{
  AbsInfo, InputId, name_size, info_size, ev_abs, bit_length, transferred, id_to_net,
}
use netevent.Device.In.{
  InDevice, Writes, axis_writes, entry_writes, device_header, write_ne2_add_device,
}
use netevent.Device.Out.{Uinput, c_name, ok, new_from_ne2_add_command}
use netevent.Device.Transfer.Spec.{
  stored_axes, answering, IdFits, AbsFits, axis_bits, entry_bytes, axis_bytes, concat, event_types,
  described, announcement, entry,
}
use netevent.Device.Transfer.Read.{Works, new_from_ne2_add_command-announcement}

-- The writes end by returning, and these are their bytes.
abbrev pub Sends : Writes → Bytes → Type 0
Sends w b = (w.finished ≡ true) × (concat w.sent ≡ b)

pub concat-append : (xs ys : List Bytes) → concat (xs ++ ys) ≡ concat xs ++ concat ys
concat-append [] ys = refl
concat-append (x ∷ xs) ys =
    ap (◌++◌ x) (concat-append xs ys) ∙ sym (append_assoc x (concat xs) (concat ys))

regroup : (a b c d : Bytes) → (a ++ b) ++ (c ++ d) ≡ (a ++ (b ++ c)) ++ d
regroup a b c d = simp append_assoc

module _ (bits_of : ℕ → Bytes) (abs_of : ℕ → AbsInfo) where
  axis_writes-Sends :
      (size : ℕ) (is : List ℕ)
      → Sends
          (axis_writes (answering bits_of abs_of) size is)
          (axis_bytes abs_of is ++ (reallocated size empty).bytes)
  unfolding axis_writes
  axis_writes-Sends size [] = (refl, append-nil _)
  axis_writes-Sends size (i ∷ is) =
      let (f, e) = axis_writes-Sends size is in (f, rw (e, append_assoc))

  entry_writes-Sends :
      (size : ℕ) (absbits : Bits) (evs : List ℕ)
      → Sends (entry_writes (answering bits_of abs_of) size absbits evs) (
          entry_bytes bits_of evs
          ++ (axis_bytes abs_of (set_bits (axis_bits bits_of evs absbits))
              ++ (reallocated size empty).bytes))
  unfolding entry_writes
  entry_writes-Sends size absbits [] = axis_writes-Sends size (set_bits absbits)
  entry_writes-Sends size absbits (ev ∷ evs) =
      let (f, e) =
        entry_writes-Sends size (if ev == ev_abs then entry bits_of ev else absbits) evs in
      (
        f,
        ap (λ (x : Bytes). (htobe16 (bit_length ev * 64 % 2 ^ 16) ++ bits_of ev) ++ x) e
            ∙ regroup (htobe16 (bit_length ev * 64 % 2 ^ 16)) (bits_of ev) (entry_bytes bits_of evs)
                _,
      )

  device_header_lem :
      (number : ℕ) (d : InDevice) (evs tail : Bytes)
      → d.evbits ≡ event_types evs
      → length evs ≡ byte_size ev_max
      → device_header number d ++ tail
        ≡ add_packet number info_size name_size
          ++ (d.dev_name ++ (id_to_net d.dev_id ++ (htobe16 ev_max ++ (evs ++ tail))))
  unfolding device_header
  device_header_lem number d evs tail e l =
      rw e (rw (whole evs (byte_size ev_max) l) (simp append_assoc))
    where
      whole : (b : Bytes) (n : ℕ) → length b ≡ n → take n b ≡ b
      whole b n h = rw append-nil at (take-append n b [] h)

  -- The bytes of the announcement of a device.
  pub write-Sends :
      (number : ℕ) (d : InDevice) (evs : Bytes)
      → d.evbits ≡ event_types evs
      → length evs ≡ byte_size ev_max
      → Sends (write_ne2_add_device (answering bits_of abs_of) number d) (
          add_packet number info_size name_size
          ++ announcement bits_of abs_of d.dev_name d.dev_id evs [])
  unfolding write_ne2_add_device
  write-Sends number d evs e l =
      let (f, c) = entry_writes-Sends ev_max empty (transferred (set_bits (event_types evs))) in
      rw e (
        f,
        ap (◌++◌ (device_header number (record d { evbits = event_types evs }))) c
            ∙ device_header_lem number (record d { evbits = event_types evs }) evs _ refl l
            ∙ rw (append-nil (reallocated ev_max empty).bytes),
      )

take_packet :
    (number : ℕ) (b : Bytes)
    → (take packet_size (add_packet number info_size name_size ++ b)
        ≡ add_packet number info_size name_size)
      × (drop packet_size (add_packet number info_size name_size ++ b) ≡ b)
unfolding add_packet htobe16
take_packet number b = (refl, refl)

pub announcement-append :
    (bits_of : ℕ → Bytes) (abs_of : ℕ → AbsInfo) (name : Bytes) (id : InputId) (evs rest : Bytes)
    → announcement bits_of abs_of name id evs [] ++ rest
      ≡ announcement bits_of abs_of name id evs rest
announcement-append bits_of abs_of name id evs rest = simp (append_assoc, append-nil)

-- A device whose kernel answers its requests in full is announced without an exception. A receiver
-- that takes the packet from the bytes sent, whatever follows them, and hands the rest to
-- `newFromNE2AddCommand` makes exactly the device that the source has: its name up to the
-- terminator, its identifier, its event types but force feedback, the codes of each type and the
-- data of each axis, which is all of it on a driver with UI_DEV_SETUP and all but the value and the
-- resolution on one without. What is left of the stream is what followed the announcement. The name has a
-- terminator and the numbers fit their fields, and the driver of the receiver works.
pub transfer :
    (u : Uinput) (fd : ℕ) (modern : Bool) (bits_of : ℕ → Bytes) (abs_of : ℕ → AbsInfo) (number : ℕ)
    (d : InDevice) (evs rest : Bytes)
    → Works u fd
    → ((ev : ℕ) → length (bits_of ev) ≡ byte_size (bit_length ev * 64))
    → ((i : ℕ) → AbsFits (abs_of i))
    → length d.dev_name ≡ name_size
    → length (c_name d.dev_name) < name_size
    → IdFits d.dev_id
    → d.evbits ≡ event_types evs
    → length evs ≡ byte_size ev_max
    → let w = write_ne2_add_device (answering bits_of abs_of) number d in
      let stream = concat w.sent ++ rest in
      (w.finished ≡ true)
      × (new_from_ne2_add_command u modern false (take packet_size stream) (drop packet_size stream)
          ≡ ok
              (
                some (described fd bits_of (stored_axes modern abs_of) d.dev_name d.dev_id evs),
                modern,
              )
              rest)
transfer u fd modern bits_of abs_of number d evs rest works full fits hn hc hi e l =
    let (f, c) = write-Sends bits_of abs_of number d evs e l in
    let p = add_packet number info_size name_size in
    let body = announcement bits_of abs_of d.dev_name d.dev_id evs rest in
    let whole : concat (write_ne2_add_device (answering bits_of abs_of) number d).sent ++ rest
        ≡ p ++ body =
      ap (λ (x : Bytes). x ++ rest) c
      ∙ append_assoc p (announcement bits_of abs_of d.dev_name d.dev_id evs []) rest
      ∙ ap (◌++◌ p) (announcement-append bits_of abs_of d.dev_name d.dev_id evs rest) in
    (
      f,
      rw (whole, (take_packet number body).0, (take_packet number body).1)
          (new_from_ne2_add_command-announcement u fd modern bits_of abs_of number d.dev_name
            d.dev_id evs rest works full fits hn hc hi l),
    )
