-- ===== src/Tests/Sessions.antt =====
-- Examples for `netevent cat` and `netevent create`, and for the state of a daemon that runs.
use netevent.Prelude.{ℕ, ◌≡◌, ◌≢◌, refl, true, false, [], ◌∷◌, ◌++◌, arith, replicate}
use netevent.Packet.{InputEvent, hello_packet, IsValid}
use netevent.Device.In.Reads.{RawEvent, gone, open_device, opens, unexpected_eof}
use netevent.Device.Transfer.Spec.{answering, concat}
use netevent.Create.{World, reject, resume, replace, create, out_of_fuel}
use netevent.Create.Fuel.{create-ends}
use netevent.Create.Messages.{Description, Fits, announce, event, alive, remove, all_said, goes}
use netevent.Create.Step.{Serves}
use netevent.Create.Heard.{Transmission, Matches, heard, sent, senders, silent}
use netevent.Create.Session.{create-Matches}
use netevent.Cat.{Output, cat, threw, read_error}
use netevent.Cat.Events.{answers}
use netevent.Cat.Pipeline.{device, node, shared, cat-create}
use netevent.Tests.Devices.{
  driver, driver-Works, some_codes, some_codes-length, an_axis, an_axis-AbsFits, pad_name,
  pad_name_ends, pad_id, pad_id-IdFits, pad_events, four_bytes,
}

abbrev pub pad : Description
pad = record {
  bits_of = some_codes;
  abs_of = an_axis;
  name = pad_name;
  id = pad_id;
  evs = pad_events;
}

pub pad-Fits : Fits pad
pad-Fits = record {
  full = some_codes-length;
  axes_fit = an_axis-AbsFits;
  name_fits = refl;
  name_ends = pad_name_ends;
  id_fits = pad_id-IdFits;
  types_fit = four_bytes;
}

-- Every announcement gets the descriptor 5.
abbrev pub receiving : World
receiving = record { driver = λ n. driver; takes = λ n ev. true }

abbrev pub fives : ℕ → ℕ
fives n = 5

pub receiving-Serves : Serves receiving fives
receiving-Serves = record { works = λ n. driver-Works; takes_all = λ n ev. refl }

abbrev pub key : RawEvent
key = record { sec = 7; usec = 5; type = 1; code = 272; value = 1 }

abbrev pub rumble : RawEvent
rumble = record { sec = 8; usec = 0; type = 21; code = 80; value = 1 }

abbrev key_event : InputEvent
key_event = record {
  tv_sec = 7;
  tv_usec = 5;
  type = 1;
  code = 272;
  value = 1;
  padding = replicate 4 0;
}

key_event-IsValid : IsValid key_event
key_event-IsValid = record {
  sec_fits = omega arith;
  usec_fits = omega arith;
  type_fits = omega arith;
  code_fits = omega arith;
  value_fits = omega arith;
  padding_size = refl;
}

-- One client sends a device, an event and half a packet; the next one comes back to the device.
abbrev first_client : Transmission
first_client = record {
  messages = announce 2 pad ∷ event 2 key_event ∷ alive ∷ [];
  cut = replicate 14 0;
}

abbrev second_client : Transmission
second_client = record { messages = announce 2 pad ∷ event 2 key_event ∷ remove 2 ∷ []; cut = [] }

create-Matches_example :
    Matches (all_said fives resume (heard true (first_client ∷ second_client ∷ [])) silent) (
      create receiving resume true (
        record { bytes = hello_packet ++ sent first_client; fails = false }
        ∷ senders (second_client ∷ [])))
create-Matches_example =
    create-Matches receiving fives receiving-Serves resume true first_client (second_client ∷ []) (
      (((omega arith, pad-Fits), ((omega arith, key_event-IsValid), (tt, tt))), omega arith),
      (
        (
          ((omega arith, pad-Fits), ((omega arith, key_event-IsValid), (omega arith, tt))),
          omega arith,
        ),
        tt,
      ),
    )

create-ends_example :
    create receiving replace true
      (record { bytes = hello_packet ++ (1 ∷ 2 ∷ 3 ∷ []); fails = true } ∷ [])
    ≢ out_of_fuel
create-ends_example =
    create-ends receiving replace true
      (record { bytes = hello_packet ++ (1 ∷ 2 ∷ 3 ∷ []); fails = true } ∷ [])

abbrev pub pipe : Output
pipe = record { takes_hello = true; takes = λ n. true }

cat-create_example :
    let c =
      cat
        (answering some_codes an_axis)
        pipe
        true
        (device 4 false pad)
        (answers (key ∷ rumble ∷ []) gone) in
    (open_device (node 4 pad) ≡ opens (device 4 false pad))
    × (c.ended ≡ threw (read_error unexpected_eof))
    × Matches
        (goes (shared fives pad (key ∷ rumble ∷ [])))
        (create receiving reject false (record { bytes = concat c.sent; fails = false } ∷ []))
cat-create_example =
    cat-create receiving fives reject false true pipe pad 4 (key ∷ rumble ∷ []) gone
      receiving-Serves refl (λ n. refl) pad-Fits
