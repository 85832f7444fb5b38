-- ===== src/Tests/Headers.antt =====
-- An example for the header of version 1, on hosts of big-endian numbers.
use netevent.Prelude.{
  ℕ, ◌^◌, ◌<◌, ◌≡◌, refl, true, false, [], ◌∷◌, some, Bytes, arith, length, replicate, ◌==◌,
  if◌then◌else◌, length-replicate,
}
use netevent.Wire.{htobe16, be16toh, length-htobe16, be16toh-htobe16}
use netevent.Bits.{IsValid, byte_size}
use netevent.Device.{id_to_net, id_to_host, abs_to_net, abs_to_host, info_size}
use netevent.Device.Transfer.Spec.{answering, concat, event_types}
use netevent.Device.Transfer.Steps.{
  id_to_host-id_to_net, length-id_to_net, abs_to_host-abs_to_net, length-abs_to_net,
}
use netevent.Device.Legacy.{Layout, ne1_count}
use netevent.Packet.{to_net, to_host, InputEvent}
use netevent.Packet
use netevent.Packet.Laws.{to_host-to_net}
use netevent.Device.In.Reads.{RawEvent, gone, unexpected_eof}
use netevent.Cat.{threw, read_error}
use netevent.Cat.Events.{answers}
use netevent.Cat.Legacy.{EventLayout, cat_legacy, create_legacy, play_returned}
use netevent.Cat.Legacy.Trip.{received, create_legacy-cat_legacy}
use netevent.Device.Legacy.Spec.{ne1_described}
use netevent.Tests.Devices.{
  driver, driver-Works, an_axis, an_axis-AbsFits, pad, pad_name, pad_name_ends, pad_id,
  pad_id-IdFits, pad_events, four_bytes,
}

abbrev pub big_endian : Layout
big_endian = record {
  size_image = htobe16;
  read_size = be16toh;
  id_image = id_to_net;
  read_id = id_to_host;
  abs_image = abs_to_net;
  read_abs = abs_to_host;
  length-size_image = length-htobe16;
  length-id_image = length-id_to_net;
  length-abs_image = length-abs_to_net;
  read_size_image = be16toh-htobe16 info_size (omega arith);
  read_id_image = id_to_host-id_to_net;
  read_abs_image = abs_to_host-abs_to_net;
}

-- KEY_MAX, REL_MAX, ABS_MAX, MSC_MAX, SW_MAX and LED_MAX.
abbrev pub maxima : ℕ → ℕ
maxima ev =
    if ev == 1
    then 767
    else if ev == 3
    then 63
    else if ev == 4
    then 7
    else if ev == 5
    then 16
    else 15

maxima_small : (ev : ℕ) → maxima ev < 2 ^ 16
maxima_small ev = ground arith

abbrev some_bits : ℕ → Bytes
some_bits ev = replicate (byte_size (ne1_count (maxima ev))) 5

some_bits-length : (ev : ℕ) → length (some_bits ev) ≡ byte_size (ne1_count (maxima ev))
some_bits-length ev = length-replicate (byte_size (ne1_count (maxima ev))) 5

pad_events-IsValid : IsValid (event_types pad_events)
unfolding byte_size
pad_events-IsValid = record {
  count_fits = omega arith;
  allocated = omega arith;
  all_bytes = ground arith;
}

pub length-to_net : (ev : InputEvent) → Packet.IsValid ev → length (to_net ev) ≡ 24
unfolding to_net htobe16
length-to_net ev v = ground (arith, v.padding_size)

abbrev pub big_endian_events : EventLayout
big_endian_events = record {
  event_image = to_net;
  read_event = to_host;
  length-event_image = length-to_net;
  read_event_image = to_host-to_net;
}

abbrev key : RawEvent
key = record { sec = 7; usec = 5; type = 1; code = 272; value = 1 }

abbrev rumble : RawEvent
rumble = record { sec = 8; usec = 5; type = 21; code = 80; value = 1 }

create_legacy-cat_legacy_example :
    let c =
      cat_legacy big_endian_events big_endian maxima
        (answering some_bits an_axis)
        (λ ev size. some (some_bits ev))
        (λ i. true)
        true
        pad
        (answers (key ∷ rumble ∷ []) gone) in
    (c.ended ≡ threw (read_error unexpected_eof))
    × (create_legacy big_endian_events big_endian maxima driver (λ i ev. true) false (concat c.sent)
        ≡ (
          some (ne1_described 5 maxima some_bits an_axis pad_name pad_id pad_events),
          record { written = received (key ∷ rumble ∷ []); ended = play_returned 0 },
        ))
create_legacy-cat_legacy_example =
    create_legacy-cat_legacy big_endian_events big_endian maxima driver 5 some_bits some_bits
      an_axis pad pad_events (key ∷ rumble ∷ []) gone true (λ i. true) (λ i ev. true) driver-Works
      maxima_small some_bits-length some_bits-length an_axis-AbsFits refl pad_name_ends
      pad_id-IdFits refl pad_events-IsValid four_bytes refl (λ i. refl) (λ i ev. refl)
