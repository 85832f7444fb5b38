-- ===== src/Device/Legacy/Sends.antt =====
-- What `writeNeteventHeader` writes.
use netevent.Prelude.{
  ℕ, zero, suc, ◌≡◌, refl, ap, ◌∙◌, inl, inr, Bool, true, false, List, [], ◌∷◌, ◌++◌, some, Bytes,
  length, take, if◌then◌else◌, Bool-cases, append-nil, take-append,
}
use mathlib.Core.Path.{ap₂}
use netevent.Bits.{Bits, byte_size, get_bit}
use netevent.Text.Event.{ev_max}
use netevent.Device.{AbsInfo, info_size, ev_abs}
use netevent.Device.In.{InDevice, Writes}
use netevent.Device.Transfer.Spec.{answering, event_types}
use netevent.Device.Transfer.Sent.{Sends, concat-append}
use netevent.Device.Legacy.{
  Layout, entry_types, state_types, nothing_more, followed_by, fetched_writes, all_axis_writes,
  write_netevent_header,
}
use netevent.Device.Legacy.Spec.{fetched, all_axis_bytes}

followed_by-Sends :
    (w v : Writes) (a b : Bytes) → Sends w a → Sends v b → Sends (followed_by w v) (a ++ b)
followed_by-Sends w v a b (f, p) (g, q) = rw f (g, concat-append w.sent v.sent ∙ ap₂ (◌++◌) p q)

module _ (layout : Layout) (max_of : ℕ → ℕ) where
  fetched_writes-Sends :
      (answer : ℕ → Bytes) (types : Bits) (evs : List ℕ)
      → Sends
          (fetched_writes layout max_of (λ ev size. some (answer ev)) types evs)
          (fetched answer types evs)
  unfolding fetched_writes
  fetched_writes-Sends answer types [] = (refl, refl)
  fetched_writes-Sends answer types (ev ∷ evs) =
      let (f, p) = fetched_writes-Sends answer types evs in
      elim (Bool-cases (get_bit types ev)) [
        | inl e ↦ rw e (f, ap (◌++◌ (answer ev)) p)
        | inr e ↦ rw e (f, p)
      ]

  all_axis_writes-Sends :
      (bits_of : ℕ → Bytes) (abs_of : ℕ → AbsInfo) (i n : ℕ)
      → Sends
          (all_axis_writes layout max_of (answering bits_of abs_of) i n)
          (all_axis_bytes abs_of layout i n)
  unfolding all_axis_writes
  all_axis_writes-Sends bits_of abs_of i zero = (refl, refl)
  all_axis_writes-Sends bits_of abs_of i (suc n) =
      let (f, p) = all_axis_writes-Sends bits_of abs_of (suc i) n in
      (f, ap (◌++◌ (layout.abs_image (abs_of i))) p)

  axes-Sends :
      (bits_of : ℕ → Bytes) (abs_of : ℕ → AbsInfo) (b : Bool)
      → Sends
          (if b
            then all_axis_writes layout max_of (answering bits_of abs_of) 0 (max_of ev_abs)
            else nothing_more)
          (if b then all_axis_bytes abs_of layout 0 (max_of ev_abs) else [])
  axes-Sends bits_of abs_of true = all_axis_writes-Sends bits_of abs_of 0 (max_of ev_abs)
  axes-Sends bits_of abs_of false = (refl, refl)

  take_whole : (n : ℕ) (b : Bytes) → length b ≡ n → take n b ≡ b
  take_whole n b h = rw append-nil at (take-append n b [] h)

  -- The bytes of the header.
  pub write_netevent_header-Sends :
      (bits_of states_of : ℕ → Bytes) (abs_of : ℕ → AbsInfo) (d : InDevice) (evs : Bytes)
      → d.evbits ≡ event_types evs
      → length evs ≡ byte_size ev_max
      → Sends
          (write_netevent_header layout max_of
            (answering bits_of abs_of)
            (λ ev size. some (states_of ev))
            d)
          ((layout.size_image info_size ++ (d.dev_name ++ (layout.id_image d.dev_id ++ evs)))
            ++ (fetched bits_of (event_types evs) entry_types
                ++ (fetched states_of (event_types evs) state_types
                    ++ (if get_bit (event_types evs) ev_abs
                        then all_axis_bytes abs_of layout 0 (max_of ev_abs)
                        else []))))
  unfolding write_netevent_header
  write_netevent_header-Sends bits_of states_of abs_of d evs e l =
      let types : Bits = event_types evs in
      let has_axes : Bool = get_bit types ev_abs in
      let w1 : Writes =
        fetched_writes layout max_of (λ ev size. some (bits_of ev)) types entry_types in
      let w2 : Writes =
        fetched_writes layout max_of (λ ev size. some (states_of ev)) types state_types in
      let w3 : Writes =
        if has_axes
        then all_axis_writes layout max_of (answering bits_of abs_of) 0 (max_of ev_abs)
        else nothing_more in
      let b3 : Bytes = if has_axes then all_axis_bytes abs_of layout 0 (max_of ev_abs) else [] in
      let (f, p) =
        followed_by-Sends w1 (followed_by w2 w3) (fetched bits_of types entry_types)
          (fetched states_of types state_types ++ b3)
          (fetched_writes-Sends bits_of types entry_types)
          (followed_by-Sends w2 w3 (fetched states_of types state_types) b3
            (fetched_writes-Sends states_of types state_types)
            (axes-Sends bits_of abs_of has_axes)) in
      rw (e, take_whole (byte_size ev_max) evs l)
        (
          f,
          ap
              (λ (x : Bytes).
                (layout.size_image info_size ++ (d.dev_name ++ (layout.id_image d.dev_id ++ evs)))
                ++ x)
              p,
        )
