-- ===== src/Device/Transfer/Spec.antt =====
-- What the announcement of a device holds, and the device that it describes, in terms of the
-- kernel's answers.
use netevent.Prelude.{
  Bool, ℕ, ◌*◌, ◌%◌, ◌^◌, ◌<◌, true, List, [], ◌∷◌, ◌++◌, some, Bytes, ◌==◌, if◌then◌else◌,
}
use netevent.Bits.{Bits, set_bits, empty, reallocated}
use netevent.Wire.{htobe16}
use netevent.Text.Event.{ev_ff, ev_max}
use netevent.Device.{
  InputId, AbsInfo, ev_abs, bit_length, ui_set_bit_ioc, transferred, id_to_net, abs_to_net,
}
use netevent.Device.In.{Evdev}
use netevent.Device.Out.{stored_axis, OutDevice, c_name}

-- The fields fit their types.
pub record IdFits (i : InputId) : Type 0 where
  pub bustype_fits : i.bustype < 2 ^ 16
  pub vendor_fits : i.vendor < 2 ^ 16
  pub product_fits : i.product < 2 ^ 16
  pub version_fits : i.version < 2 ^ 16

pub record AbsFits (a : AbsInfo) : Type 0 where
  pub value_fits : a.value < 2 ^ 32
  pub minimum_fits : a.minimum < 2 ^ 32
  pub maximum_fits : a.maximum < 2 ^ 32
  pub fuzz_fits : a.fuzz < 2 ^ 32
  pub flat_fits : a.flat < 2 ^ 32
  pub resolution_fits : a.resolution < 2 ^ 32

-- The event types other than force feedback.
abbrev pub without_ff : List ℕ → List ℕ
without_ff [] = []
without_ff (ev ∷ evs) = if ev == ev_ff then without_ff evs else ev ∷ without_ff evs

-- The codes of one event type, as pairs with its request.
abbrev pub with_ioc : ℕ → List ℕ → List (ℕ × ℕ)
with_ioc ioc [] = []
with_ioc ioc (bit ∷ bits) = (ioc, bit) ∷ with_ioc ioc bits

-- The kernel's answers: the bits of each event type and the data of each axis.
module _ (bits_of : ℕ → Bytes) (abs_of : ℕ → AbsInfo) where
  abbrev pub answering : Evdev
  answering = record {
    query_bits = λ ev size. some (bits_of ev);
    query_abs = λ i. some (abs_of i);
    grab_errno = λ on. 0;
  }

abbrev pub entry : (ℕ → Bytes) → ℕ → Bits
entry bits_of ev = record { bitcount = bit_length ev * 64; bytes = bits_of ev }

-- The bits of the axes, if their event type is among those given.
abbrev pub axis_bits : (ℕ → Bytes) → List ℕ → Bits → Bits
axis_bits bits_of [] b = b
axis_bits bits_of (ev ∷ evs) b =
    axis_bits bits_of evs (if ev == ev_abs then entry bits_of ev else b)

abbrev pub entry_bytes : (ℕ → Bytes) → List ℕ → Bytes
entry_bytes bits_of [] = []
entry_bytes bits_of (ev ∷ evs) =
    htobe16 (bit_length ev * 64 % 2 ^ 16) ++ (bits_of ev ++ entry_bytes bits_of evs)

abbrev pub axis_bytes : (ℕ → AbsInfo) → List ℕ → Bytes
axis_bytes abs_of [] = []
axis_bytes abs_of (i ∷ is) = abs_to_net (abs_of i) ++ axis_bytes abs_of is

abbrev pub axes_of : (ℕ → AbsInfo) → List ℕ → List (ℕ × AbsInfo)
axes_of abs_of [] = []
axes_of abs_of (i ∷ is) = (i, abs_of i) ∷ axes_of abs_of is

abbrev pub codes_of : (ℕ → Bytes) → List ℕ → List (ℕ × ℕ)
codes_of bits_of [] = []
codes_of bits_of (ev ∷ evs) =
    with_ioc (ui_set_bit_ioc ev) (set_bits (entry bits_of ev)) ++ codes_of bits_of evs

abbrev pub concat : List Bytes → Bytes
concat [] = []
concat (b ∷ bs) = b ++ concat bs

-- The vector of event types of a device that has these bytes.
abbrev pub event_types : Bytes → Bits
event_types evs = record { bitcount = ev_max; bytes = evs }

-- The bits of the axes that a device announces.
abbrev pub announced_axes : (ℕ → Bytes) → Bytes → List ℕ
announced_axes bits_of evs =
    set_bits (axis_bits bits_of (transferred (set_bits (event_types evs))) empty)

-- The device that the announcement describes: the name up to its end, the identifier, all event
-- types but force feedback, all codes of the types that carry codes, and the data of all axes.
-- The data of the axes as a device gets them.
abbrev pub stored_axes : Bool → (ℕ → AbsInfo) → ℕ → AbsInfo
stored_axes modern abs_of i = stored_axis modern (abs_of i)

abbrev pub described : ℕ → (ℕ → Bytes) → (ℕ → AbsInfo) → Bytes → InputId → Bytes → OutDevice
described fd bits_of abs_of name id evs = record {
  fd = fd;
  name = c_name name;
  id = id;
  events = without_ff (set_bits (event_types evs));
  codes = codes_of bits_of (transferred (set_bits (event_types evs)));
  axes = axes_of abs_of (announced_axes bits_of evs);
  created = true;
}

-- What an announcement holds behind its packet.
abbrev pub announcement : (ℕ → Bytes) → (ℕ → AbsInfo) → Bytes → InputId → Bytes → Bytes → Bytes
announcement bits_of abs_of name id evs rest =
    name
    ++ (id_to_net id
        ++ (htobe16 ev_max
            ++ (evs
                ++ (entry_bytes bits_of (transferred (set_bits (event_types evs)))
                    ++ (axis_bytes abs_of (announced_axes bits_of evs)
                        ++ ((reallocated ev_max empty).bytes ++ rest))))))
