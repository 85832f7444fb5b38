-- ===== src/Device/Legacy/Trip.antt =====
-- The two sides of the protocol of version 1.
use netevent.Prelude.{
  ℕ, ◌^◌, ◌<◌, ◌≡◌, ◌≢◌, refl, sym, ap, ◌∙◌, Bool, true, false, List, [], ◌∷◌, ◌++◌, some, Bytes,
  length, ◌==◌, if◌then◌else◌, arith, append_assoc,
}
use mathlib.Core.Path.{ap₂}
use netevent.Bits.{Bits, byte_size, get_bit, IsValid}
use netevent.Bits.Access.{get_bit-set_bit}
use netevent.Text.Event.{ev_ff, ev_max}
use netevent.Device.{AbsInfo, name_size, info_size, ev_abs}
use netevent.Device.In.{InDevice}
use netevent.Device.Out.{Uinput, ok, c_name}
use netevent.Device.Transfer.Spec.{stored_axes, IdFits, AbsFits, answering, concat, event_types}
use netevent.Device.Transfer.Read.{Works}
use netevent.Device.Legacy.{
  Layout, entry_types, state_types, ne1_count, write_netevent_header, new_from_netevent_stream,
}
use netevent.Device.Legacy.Spec.{plain_types, fetched, all_axis_bytes, ne1_described}
use netevent.Device.Legacy.Sends.{write_netevent_header-Sends}
use netevent.Device.Legacy.Read.{new_from_netevent_stream-read}

-- Two vectors that have the same types of a list.
abbrev Same : Bits → Bits → List ℕ → Type 0
Same b c [] = Unit {0}
Same b c (ev ∷ evs) = (get_bit b ev ≡ get_bit c ev) × Same b c evs

fetched-Same :
    (answer : ℕ → Bytes) (b c : Bits) (evs : List ℕ)
    → Same b c evs
    → fetched answer b evs ≡ fetched answer c evs
fetched-Same answer b c [] s = refl
fetched-Same answer b c (ev ∷ evs) s =
    ap₂ (λ (x : Bool) (y : Bytes). (if x then answer ev else []) ++ y) s.0
      (fetched-Same answer b c evs s.1)

without_ff-Same :
    (evs : Bytes) (ev : ℕ)
    → IsValid (event_types evs)
    → ev ≢ ev_ff
    → get_bit (event_types evs) ev ≡ get_bit (plain_types evs) ev
without_ff-Same evs ev v n =
    let other : ev == ev_ff ≡ false = ground arith in
    sym (get_bit-set_bit (event_types evs) ev_ff ev false v (omega arith) ∙ rw other refl)

regroup :
    (s n i v e t a r : Bytes)
    → ((s ++ (n ++ (i ++ v))) ++ (e ++ (t ++ a))) ++ r
      ≡ s ++ (n ++ (i ++ (v ++ (e ++ (t ++ (a ++ r))))))
regroup s n i v e t a r = simp append_assoc

module _ (layout : Layout) where
  -- The header of version 1 from the device to the device. Where the kernel answers in full, the
  -- header is written without an exception, and a receiver whose driver works makes of its bytes,
  -- whatever follows them, the device of that name, identifier and event types but force feedback,
  -- with the codes of the six types of the protocol below the greatest code of each, and with the
  -- axes that are set, without their values and resolutions on a driver without UI_DEV_SETUP; what follows is left on the stream. Both sides have the same layout in memory
  -- and the same greatest codes, of 16 bits.
  pub new_from_netevent_stream-write_netevent_header :
      (max_of : ℕ → ℕ) (u : Uinput) (fd : ℕ) (modern : Bool) (bits_of states_of : ℕ → Bytes)
      (abs_of : ℕ → AbsInfo) (d : InDevice) (evs rest : Bytes)
      → Works u fd
      → ((ev : ℕ) → max_of ev < 2 ^ 16)
      → ((ev : ℕ) → length (bits_of ev) ≡ byte_size (ne1_count (max_of ev)))
      → ((ev : ℕ) → length (states_of ev) ≡ byte_size (ne1_count (max_of ev)))
      → ((i : ℕ) → AbsFits (abs_of i))
      → length d.dev_name ≡ name_size
      → length (c_name d.dev_name) < name_size
      → IdFits d.dev_id
      → d.evbits ≡ event_types evs
      → IsValid (event_types evs)
      → length evs ≡ byte_size ev_max
      → let w =
          write_netevent_header layout max_of
            (answering bits_of abs_of)
            (λ ev size. some (states_of ev))
            d in
        (w.finished ≡ true)
        × (new_from_netevent_stream layout max_of u modern (concat w.sent ++ rest)
            ≡ ok
                (
                  ne1_described fd max_of bits_of
                      (stored_axes modern abs_of)
                      d.dev_name
                      d.dev_id
                      evs,
                  modern,
                )
                rest)
  new_from_netevent_stream-write_netevent_header max_of u fd modern bits_of states_of abs_of d evs
        rest works small full states_full fits hn hc hi e v l =
      let s : Bytes = layout.size_image info_size in
      let n : Bytes = d.dev_name in
      let i : Bytes = layout.id_image d.dev_id in
      let (f, p) = write_netevent_header-Sends layout max_of bits_of states_of abs_of d evs e l in
      let same : (ev : ℕ)
          → ev ≢ ev_ff
          → get_bit (event_types evs) ev ≡ get_bit (plain_types evs) ev =
        λ ev. without_ff-Same evs ev v in
      let entries : fetched bits_of (event_types evs) entry_types
          ≡ fetched bits_of (plain_types evs) entry_types =
        fetched-Same bits_of (event_types evs) (plain_types evs) entry_types (
          same 1 (omega arith),
          (
            same 3 (omega arith),
            (
              same 2 (omega arith),
              (same 4 (omega arith), (same 5 (omega arith), (same 17 (omega arith), tt))),
            ),
          ),
        ) in
      let states : fetched states_of (event_types evs) state_types
          ≡ fetched states_of (plain_types evs) state_types =
        fetched-Same states_of (event_types evs) (plain_types evs) state_types
          (same 1 (omega arith), (same 17 (omega arith), (same 5 (omega arith), tt))) in
      let sent_axes : Bytes =
        if get_bit (event_types evs) ev_abs
        then all_axis_bytes abs_of layout 0 (max_of ev_abs)
        else [] in
      let axes : sent_axes ≡ (
          if get_bit (plain_types evs) ev_abs
          then all_axis_bytes abs_of layout 0 (max_of ev_abs)
          else []) =
        ap (λ (b : Bool). if b then all_axis_bytes abs_of layout 0 (max_of ev_abs) else [])
          (same ev_abs (omega arith)) in
      let tail = ap₂ (◌++◌) entries (ap₂ (◌++◌) states (ap (λ (x : Bytes). x ++ rest) axes)) in
      (
        f,
        rw
            (ap (λ (x : Bytes). x ++ rest) p
              ∙ regroup s n i evs (fetched bits_of (event_types evs) entry_types)
                  (fetched states_of (event_types evs) state_types) sent_axes rest
              ∙ ap (λ (x : Bytes). s ++ (n ++ (i ++ (evs ++ x)))) tail)
            (new_from_netevent_stream-read layout max_of u fd works small bits_of states_of full
              states_full abs_of fits modern d.dev_name d.dev_id evs rest hn hc hi l),
      )
