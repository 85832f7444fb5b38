-- ===== src/Device.antt =====
-- Devices: the source side (reader.cpp, `InDevice`) and the side that creates them again (writer.cpp,
-- `OutDevice`). What both share stands here.
pub mod In
pub mod Out
pub mod Transfer
pub mod Legacy
use netevent.Prelude.{
  ℕ, ◌+◌, ◌-◌, ◌*◌, ◌%◌, ◌^◌, Bool, true, false, not, ◌&&◌, List, [], ◌∷◌, ◌++◌, Bytes, length,
  ◌==◌, if◌then◌else◌, ◌<◌, drop, replicate, take,
}
use netevent.Bits.{Bits, byte_size, set_bits}
use netevent.Wire.{htobe16, htobe32, be16toh, be32toh}

-- `struct input_id`
pub record InputId : Type 0 where
  pub bustype : ℕ
  pub vendor : ℕ
  pub product : ℕ
  pub version : ℕ

-- `struct input_absinfo`; each field is the 32-bit pattern of an `int32_t`.
pub record AbsInfo : Type 0 where
  pub value : ℕ
  pub minimum : ℕ
  pub maximum : ℕ
  pub fuzz : ℕ
  pub flat : ℕ
  pub resolution : ℕ

-- `sizeof(user_dev_.name)` and `sizeof(user_dev_)`, of the kernel's `struct uinput_user_dev`.
abbrev pub name_size : ℕ
name_size = 80

abbrev pub info_size : ℕ
info_size = 1116

abbrev pub ev_abs : ℕ
ev_abs = 3

-- `kUISetBitIOC`, as `main` fills it: the request that sets a code of an event type, by its number
-- within the uinput requests, and 0 for the types that are not transferred.
unfoldable pub ui_set_bit_ioc : ℕ → ℕ
ui_set_bit_ioc ev =
    if ev == 1
    then 101
    else if ev == 2
    then 102
    else if ev == 3
    then 103
    else if ev == 4
    then 104
    else if ev == 0x11
    then 105
    else if ev == 0x12
    then 106
    else if ev == 0x15
    then 107
    else if ev == 5
    then 109
    else 0

-- `kBitLength`, as `main` fills it: the number of 64-bit words that hold the codes of a type.
unfoldable pub bit_length : ℕ → ℕ
bit_length ev =
    if ev == 1
    then 12
    else if ev == 2
    then 1
    else if ev == 3
    then 1
    else if ev == 4
    then 1
    else if ev == 0x11
    then 1
    else if ev == 0x12
    then 1
    else if ev == 0x15
    then 2
    else if ev == 5
    then 1
    else 0

-- `if (!ev || !kUISetBitIOC[ev.index()]) continue;`, over the event types that are set.
abbrev pub transferred : List ℕ → List ℕ
transferred [] = []
transferred (ev ∷ evs) = if ui_set_bit_ioc ev == 0 then transferred evs else ev ∷ transferred evs

-- The identifiers and axis data on the wire.
unfoldable pub id_to_net : InputId → Bytes
id_to_net i = htobe16 i.bustype ++ (htobe16 i.vendor ++ (htobe16 i.product ++ htobe16 i.version))

unfoldable pub id_to_host : Bytes → InputId
id_to_host b = record {
  bustype = be16toh b;
  vendor = be16toh (drop 2 b);
  product = be16toh (drop 4 b);
  version = be16toh (drop 6 b);
}

unfoldable pub abs_to_net : AbsInfo → Bytes
abs_to_net a =
    htobe32 a.value
    ++ (htobe32 a.minimum
        ++ (htobe32 a.maximum ++ (htobe32 a.fuzz ++ (htobe32 a.flat ++ htobe32 a.resolution))))

unfoldable pub abs_to_host : Bytes → AbsInfo
abs_to_host b = record {
  value = be32toh b;
  minimum = be32toh (drop 4 b);
  maximum = be32toh (drop 8 b);
  fuzz = be32toh (drop 12 b);
  flat = be32toh (drop 16 b);
  resolution = be32toh (drop 20 b);
}
