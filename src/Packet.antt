-- ===== src/Packet.antt =====
-- The packets of the protocol (main.h, `InputEvent` and `NE2Packet`; main.cpp, `writeHello` and
-- `checkHello`; daemon.cpp and reader.cpp where they fill a packet). A packet is the 28 bytes of
-- the packed union; what a member does not cover is zero, as `memset` left it.
pub mod Laws
use netevent.Prelude.{
  ℕ, ◌+◌, ◌-◌, ◌%◌, ◌^◌, Bool, true, false, not, List, [], ◌∷◌, ◌++◌, Bytes, length, replicate,
  ◌==◌, if◌then◌else◌, codes, str_eq, take, drop, ◌<◌, ◌≡◌,
}
use netevent.Wire.{htobe16, htobe32, htobe64, be16toh, be32toh, be64toh, slice}

-- `InputEvent` in host order. The value is its 32-bit pattern, and the padding is four bytes that
-- are passed on as they are.
pub record InputEvent : Type 0 where
  pub tv_sec : ℕ
  pub tv_usec : ℕ
  pub type : ℕ
  pub code : ℕ
  pub value : ℕ
  pub padding : Bytes

-- `sizeof(NE2Packet)`
abbrev pub packet_size : ℕ
packet_size = 28

-- `NE2Command`
pub data Command : Type 0 where
  keep_alive add_device remove_device device_event hello : Command

abbrev pub command_code : Command → ℕ
command_code keep_alive = 0
command_code add_device = 1
command_code remove_device = 2
command_code device_event = 3
command_code hello = 4

-- `InputEvent::toNet`, as the bytes of the packed struct.
unfoldable pub to_net : InputEvent → Bytes
unfolding htobe16 htobe32 htobe64
to_net ev =
    htobe64 ev.tv_sec
    ++ (htobe32 ev.tv_usec
        ++ (htobe16 ev.type ++ (htobe16 ev.code ++ (htobe32 ev.value ++ ev.padding))))

-- `InputEvent::toHost`
unfoldable pub to_host : Bytes → InputEvent
unfolding be16toh be32toh be64toh
to_host b = record {
  tv_sec = be64toh b;
  tv_usec = be32toh (drop 8 b);
  type = be16toh (drop 12 b);
  code = be16toh (drop 14 b);
  value = be32toh (drop 16 b);
  padding = slice 20 4 b;
}

-- The packet of `readFromDevice` and `cmd_cat`.
unfoldable pub event_packet : ℕ → InputEvent → Bytes
unfolding to_net htobe16
event_packet id ev = htobe16 (command_code device_event) ++ (htobe16 id ++ to_net ev)

-- The packet of `announceDeviceRemoval`.
unfoldable pub remove_packet : ℕ → Bytes
unfolding htobe16
remove_packet id = htobe16 (command_code remove_device) ++ (htobe16 id ++ replicate 24 0)

-- The packet of `writeNE2AddDevice`.
unfoldable pub add_packet : ℕ → ℕ → ℕ → Bytes
unfolding htobe16
add_packet id info_size name_size =
    htobe16 (command_code add_device)
    ++ (htobe16 id ++ (htobe16 info_size ++ (htobe16 name_size ++ replicate 20 0)))

-- `kNE2Hello` and `kNE2Version`
abbrev pub ne2_hello : Bytes
ne2_hello = codes "NE2Hello"

abbrev pub ne2_version : ℕ
ne2_version = 2

-- The packet of `writeHello`.
unfoldable pub hello_packet : Bytes
unfolding htobe16
hello_packet =
    htobe16 (command_code hello) ++ (htobe16 ne2_version ++ (ne2_hello ++ replicate 16 0))

-- The fields that the receiver reads: the command, and the identifier of the three packets that
-- have one.
unfoldable pub packet_cmd : Bytes → ℕ
unfolding be16toh
packet_cmd p = be16toh p

unfoldable pub packet_id : Bytes → ℕ
unfolding be16toh
packet_id p = be16toh (drop 2 p)

-- What `checkHello` finds.
pub data HelloCheck : Type 0 where
  accepted not_hello bad_magic version_mismatch : HelloCheck

-- `checkHello`; its caller has put the command into host order.
unfoldable pub check_hello : Bytes → HelloCheck
unfolding packet_cmd be16toh str_eq
check_hello p =
    if not (packet_cmd p == command_code hello)
    then not_hello
    else if not (str_eq (slice 4 8 p) ne2_hello)
    then bad_magic
    else if not (be16toh (drop 2 p) == ne2_version)
    then version_mismatch
    else accepted

-- An event whose fields fit their types.
pub record IsValid (ev : InputEvent) : Type 0 where
  pub sec_fits : ev.tv_sec < 2 ^ 64
  pub usec_fits : ev.tv_usec < 2 ^ 32
  pub type_fits : ev.type < 2 ^ 16
  pub code_fits : ev.code < 2 ^ 16
  pub value_fits : ev.value < 2 ^ 32
  pub padding_size : length ev.padding ≡ 4
