-- ===== src/Device/Legacy/Spec.antt =====
-- What the header of version 1 holds, and the device that it describes, in terms of the kernel's
-- answers.
use netevent.Prelude.{ℕ, zero, suc, true, false, List, [], ◌∷◌, ◌++◌, Bytes, ◌==◌, if◌then◌else◌}
use netevent.Bits.{Bits, get_bit, set_bit, set_bits, empty}
use netevent.Text.Event.{ev_ff}
use netevent.Device.{InputId, AbsInfo, ev_abs, ui_set_bit_ioc}
use netevent.Device.Out.{OutDevice, c_name}
use netevent.Device.Transfer.Spec.{event_types, with_ioc}
use netevent.Device.Legacy.{Layout, entry_types}

-- The event types of a device without force feedback.
abbrev pub plain_types : Bytes → Bits
plain_types evs = set_bit (event_types evs) ev_ff false

module _ (max_of : ℕ → ℕ) (bits_of : ℕ → Bytes) where
  -- The codes of a type below its greatest one.
  abbrev pub codes_below : ℕ → Bits
  codes_below ev = record { bitcount = max_of ev; bytes = bits_of ev }

  abbrev pub ne1_codes : Bits → List ℕ → List (ℕ × ℕ)
  ne1_codes types [] = []
  ne1_codes types (ev ∷ evs) =
      (if get_bit types ev then with_ioc (ui_set_bit_ioc ev) (set_bits (codes_below ev)) else [])
      ++ ne1_codes types evs

  abbrev pub ne1_axis_bits : Bits → List ℕ → Bits → Bits
  ne1_axis_bits types [] b = b
  ne1_axis_bits types (ev ∷ evs) b =
      ne1_axis_bits types evs
        (if get_bit types ev then (if ev == ev_abs then codes_below ev else b) else b)

-- The answers for the types that a device has, one after the other.
abbrev pub fetched : (ℕ → Bytes) → Bits → List ℕ → Bytes
fetched answer types [] = []
fetched answer types (ev ∷ evs) =
    (if get_bit types ev then answer ev else []) ++ fetched answer types evs

module _ (abs_of : ℕ → AbsInfo) where
  abbrev pub all_axis_bytes : Layout → ℕ → ℕ → Bytes
  all_axis_bytes layout i zero = []
  all_axis_bytes layout i (suc n) = layout.abs_image (abs_of i) ++ all_axis_bytes layout (suc i) n

  -- The axes that are set, from `i` on.
  abbrev pub set_axes : Bits → ℕ → ℕ → List (ℕ × AbsInfo)
  set_axes absbits i zero = []
  set_axes absbits i (suc n) =
      (if get_bit absbits i then (i, abs_of i) ∷ [] else []) ++ set_axes absbits (suc i) n

-- The device: its name up to the terminator, the identifier, the event types without force
-- feedback, the codes of the six types of the protocol and the axes.
abbrev pub ne1_described :
    ℕ → (ℕ → ℕ) → (ℕ → Bytes) → (ℕ → AbsInfo) → Bytes → InputId → Bytes → OutDevice
ne1_described fd max_of bits_of abs_of name id evs = record {
  fd = fd;
  name = c_name name;
  id = id;
  events = set_bits (plain_types evs);
  codes = ne1_codes max_of bits_of (plain_types evs) entry_types;
  axes =
      if get_bit (plain_types evs) ev_abs
      then set_axes abs_of (ne1_axis_bits max_of bits_of (plain_types evs) entry_types empty) 0
          (max_of ev_abs)
      else [];
  created = true;
}
