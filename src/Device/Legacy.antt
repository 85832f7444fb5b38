-- ===== src/Device/Legacy.antt =====
-- The protocol of version 1: `InDevice::writeNeteventHeader` (reader.cpp) and
-- `OutDevice::newFromNeteventStream` (writer.cpp). Numbers are sent as they are in memory: what a
-- structure is in memory is the interface `Layout`. The greatest code of each event type, from the
-- kernel's headers, is the parameter `max_of`. Allocations are taken to succeed.
pub mod Spec
pub mod Sends
pub mod Steps
pub mod Read
pub mod Trip
use netevent.Prelude.{
  ℕ, zero, suc, ◌+◌, ◌*◌, ◌/◌, ◌%◌, ◌^◌, ◌≡◌, Bool, true, false, List, [], ◌∷◌, ◌++◌, Option, none,
  some, Bytes, length, ltb, ◌==◌, if◌then◌else◌, take,
}
use netevent.Bits.{Bits, byte_size, get_bit, set_bit, set_bits, shrink_to, empty}
use netevent.Text.Event.{ev_ff, ev_max}
use netevent.Device.{InputId, AbsInfo, name_size, info_size, ev_abs, ui_set_bit_ioc}
use netevent.Device.In.{Evdev, InDevice, Writes, before}
use netevent.Device.Out.{
  Uinput, OutDevice, Reader, pure, ◌>>=◌, ◌>>◌, ensure, must_read, c_name, new_out_device,
  set_event_bit_of, set_code_bits, setup_absolute_axis, create, info_size_mismatch,
}
use netevent.Device.Transfer.Spec.{IdFits, AbsFits}

-- The bytes of a `uint16_t`, a `struct input_id` and a `struct input_absinfo` in memory, and what is
-- read from such bytes.
pub record Layout : Type 0 where
  pub size_image : ℕ → Bytes
  pub read_size : Bytes → ℕ
  pub id_image : InputId → Bytes
  pub read_id : Bytes → InputId
  pub abs_image : AbsInfo → Bytes
  pub read_abs : Bytes → AbsInfo
  pub length-size_image : (n : ℕ) → length (size_image n) ≡ 2
  pub length-id_image : (i : InputId) → length (id_image i) ≡ 8
  pub length-abs_image : (a : AbsInfo) → length (abs_image a) ≡ 24
  pub read_size_image : read_size (size_image info_size) ≡ info_size
  pub read_id_image : (i : InputId) → IdFits i → read_id (id_image i) ≡ i
  pub read_abs_image : (a : AbsInfo) → AbsFits a → read_abs (abs_image a) ≡ a

-- `kEntryTypes` and `kStateTypes`: KEY, ABS, REL, MSC, SW and LED; KEY, LED and SW.
abbrev pub entry_types : List ℕ
entry_types = 1 ∷ 3 ∷ 2 ∷ 4 ∷ 5 ∷ 17 ∷ []

abbrev pub state_types : List ℕ
state_types = 1 ∷ 17 ∷ 5 ∷ []

-- The count of `resizeNE1Compat`.
abbrev pub ne1_count : ℕ → ℕ
ne1_count max = 8 * (1 + max / 8) % 2 ^ 64

abbrev pub nothing_more : Writes
nothing_more = record { sent = []; finished = true }

-- Writes behind others that end by returning.
abbrev pub followed_by : Writes → Writes → Writes
followed_by w v = if w.finished then record v { sent = w.sent ++ v.sent } else w

module _ (layout : Layout) (max_of : ℕ → ℕ) where
  -- The loops over `kEntryTypes` and `kStateTypes`: a request and a write for each type that the
  -- device has.
  unfoldable pub fetched_writes : (ℕ → ℕ → Option Bytes) → Bits → List ℕ → Writes
  fetched_writes query evbits [] = nothing_more
  fetched_writes query evbits (ev ∷ evs) =
      let rest = fetched_writes query evbits evs in
      if get_bit evbits ev
      then elim (query ev (byte_size (ne1_count (max_of ev)))) [
        | none ↦ record { sent = []; finished = false }
        | some b ↦ before b rest
      ]
      else rest

  -- The loop over the axes from `i`, with `n` to go.
  unfoldable pub all_axis_writes : Evdev → ℕ → ℕ → Writes
  all_axis_writes k i zero = nothing_more
  all_axis_writes k i (suc n) = elim (k.query_abs i) [
    | none ↦ record { sent = []; finished = false }
    | some a ↦ before (layout.abs_image a) (all_axis_writes k (suc i) n)
  ]

  -- `InDevice::writeNeteventHeader`; `states` answers EVIOCGKEY, EVIOCGLED and EVIOCGSW.
  unfoldable pub write_netevent_header : Evdev → (ℕ → ℕ → Option Bytes) → InDevice → Writes
  unfolding fetched_writes all_axis_writes
  write_netevent_header k states d =
      before
        (layout.size_image info_size
          ++ (d.dev_name
              ++ (layout.id_image d.dev_id ++ take (byte_size d.evbits.bitcount) d.evbits.bytes)))
        (followed_by (fetched_writes k.query_bits d.evbits entry_types) (
          followed_by (fetched_writes states d.evbits state_types) (
            if get_bit d.evbits ev_abs then all_axis_writes k 0 (max_of ev_abs) else nothing_more)))

  -- `resizeNE1Compat` and the read of all its bytes.
  unfoldable pub read_ne1 : ℕ → Reader Bits
  read_ne1 max = do
    bytes ← must_read (byte_size (ne1_count max))
    pure (record { bitcount = ne1_count max; bytes = bytes })

  -- `for (auto b : bits) if (b) dev->setEventBit(…)`
  unfoldable pub set_all_events : Uinput → List ℕ → OutDevice → Reader OutDevice
  set_all_events u [] d = pure d
  set_all_events u (ev ∷ evs) d = do d' ← set_event_bit_of u ev d; set_all_events u evs d'

  -- The loop over `kEntryTypes`; it returns the bits of the axes too.
  unfoldable pub read_ne1_entries :
      Uinput → Bits → List ℕ → OutDevice → Bits → Reader (OutDevice × Bits)
  unfolding read_ne1
  read_ne1_entries u bits [] d absbits = pure (d, absbits)
  read_ne1_entries u bits (ev ∷ evs) d absbits = elim (get_bit bits ev) [
    | false ↦ read_ne1_entries u bits evs d absbits
    | true ↦ do
      read ← read_ne1 (max_of ev)
      let entry = shrink_to (max_of ev) read
      d' ← set_code_bits u (ui_set_bit_ioc ev) (set_bits entry) d
      read_ne1_entries u bits evs d' (if ev == ev_abs then entry else absbits)
  ]

  -- The loop over `kStateTypes`, whose data is dropped.
  unfoldable pub read_ne1_states : Bits → List ℕ → Reader (Unit {0})
  unfolding read_ne1
  read_ne1_states bits [] = pure tt
  read_ne1_states bits (ev ∷ evs) = elim (get_bit bits ev) [
    | false ↦ read_ne1_states bits evs
    | true ↦ do state ← read_ne1 (max_of ev); read_ne1_states bits evs
  ]

  abbrev pub axis_if : Uinput → Bool → Bool → ℕ → AbsInfo → OutDevice → Reader OutDevice
  axis_if u modern true i a d = setup_absolute_axis u modern i a d
  axis_if u modern false i a d = pure d

  -- The loop over the axes from `i`, with `n` to go.
  unfoldable pub read_all_axes : Uinput → Bool → Bits → ℕ → ℕ → OutDevice → Reader OutDevice
  read_all_axes u modern absbits i zero d = pure d
  read_all_axes u modern absbits i (suc n) d = do
    a ← must_read 24
    d' ← axis_if u modern (get_bit absbits i) i (layout.read_abs a) d
    read_all_axes u modern absbits (suc i) n d'

  abbrev pub axes_if : Bool → (OutDevice → Reader OutDevice) → OutDevice → Reader OutDevice
  axes_if true m d = m d
  axes_if false m d = pure d

  -- `if (EV_FF < bits.size()) bits[EV_FF] = 0;`
  abbrev pub clear_ff : Bits → Bits
  clear_ff b = if ltb ev_ff b.bitcount then set_bit b ev_ff false else b

  -- `OutDevice::newFromNeteventStream`; it returns the new `gUse_UI_DEV_SETUP` too.
  unfoldable pub new_from_netevent_stream : Uinput → Bool → Reader (OutDevice × Bool)
  unfolding read_ne1 set_all_events read_ne1_entries read_ne1_states read_all_axes
  new_from_netevent_stream u modern = do
    size ← must_read 2
    ensure (layout.read_size size == info_size) info_size_mismatch
    name ← must_read name_size
    id ← must_read 8
    (d, modern') ← new_out_device u modern (c_name name) (layout.read_id id)
    read ← read_ne1 ev_max
    let bits = clear_ff (shrink_to ev_max read)
    d1 ← set_all_events u (set_bits bits) d
    (d2, absbits) ← read_ne1_entries u bits entry_types d1 empty
    read_ne1_states bits state_types
    d3 ← axes_if (get_bit bits ev_abs) (read_all_axes u modern' absbits 0 (max_of ev_abs)) d2
    d4 ← create u modern' d3
    pure (d4, modern')
