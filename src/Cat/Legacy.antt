-- ===== src/Cat/Legacy.antt =====
-- The protocol of version 1 in `netevent cat --legacy` (main.cpp, `cmd_cat`) and in
-- `netevent create --legacy` (main.cpp, `cmd_create_legacy`). An event is sent as it is in memory.
-- The header is taken in full by the output.
pub mod Trip
use netevent.Prelude.{
  ℕ, zero, suc, ◌≡◌, Bool, true, false, List, [], ◌∷◌, ◌++◌, Option, none, some, Bytes, length,
  take, drop, leb, if◌then◌else◌,
}
use netevent.Packet.{InputEvent, IsValid}
use netevent.Device.In.{Evdev, InDevice, grab}
use netevent.Device.In.Reads.{Answer, Got, got, refused, read}
use netevent.Device.Out.{DeviceError, Uinput, OutDevice, Result, ok, err, write}
use netevent.Device.Legacy.{Layout, write_netevent_header, new_from_netevent_stream}
use netevent.Cat.{Cat, returned, threw, waits, grab_failed, read_error, stops, sending, announced}

-- `sizeof(InputEvent)`
abbrev pub event_size : ℕ
event_size = 24

-- The bytes of an `InputEvent` in memory, and what is read from such bytes.
pub record EventLayout : Type 0 where
  pub event_image : InputEvent → Bytes
  pub read_event : Bytes → InputEvent
  pub length-event_image : (ev : InputEvent) → IsValid ev → length (event_image ev) ≡ event_size
  pub read_event_image : (ev : InputEvent) → IsValid ev → read_event (event_image ev) ≡ ev

-- How `cmd_create_legacy` ends.
pub data LegacyError : Type 0 where
  device_error : DeviceError → LegacyError
  write_failed read_failed : LegacyError

pub data PlayEnd : Type 0 where
  play_returned : ℕ → PlayEnd
  play_threw : LegacyError → PlayEnd
  out_of_fuel : PlayEnd

-- The events that were written to the device, and the end.
pub record Played : Type 0 where
  pub written : List InputEvent
  pub ended : PlayEnd

abbrev pub play_stops : PlayEnd → Played
play_stops e = record { written = []; ended = e }

module _ (events : EventLayout) where
  -- One round of `cmd_cat`: the write and the next rounds.
  unfoldable pub legacy_round : Cat → Bool → Got → Cat
  legacy_round rest taken (got ev false) = stops (returned 0)
  legacy_round rest true (got ev true) = sending (events.event_image ev) rest
  legacy_round rest false (got ev true) = stops (returned 2)
  legacy_round rest taken (refused d e) = stops (threw (read_error e))

  -- `while (dev.read(&ev))`
  unfoldable pub legacy_events : (ℕ → Bool) → ℕ → InDevice → List Answer → Cat
  unfolding legacy_round read
  legacy_events takes n d [] = stops waits
  legacy_events takes n d (a ∷ answers) =
      legacy_round (legacy_events takes (suc n) d answers) (takes n) (read a d)

  -- What `out->write(ev)` did, and the next rounds.
  abbrev pub played : Option (List InputEvent) → Played → Played
  played none rest = play_stops (play_threw write_failed)
  played (some evs) rest = record rest { written = evs ++ rest.written }

  -- The loop of `cmd_create_legacy`, with fuel for its rounds, over what its descriptor delivers;
  -- `fails` tells whether the reading ends with an error. What is less than an event is lost.
  unfoldable pub play : (ℕ → InputEvent → Bool) → Bool → ℕ → ℕ → Bytes → Played
  unfolding write
  play takes fails zero n s = play_stops out_of_fuel
  play takes fails (suc fuel) n s = elim (leb event_size (length s)) [
    | false ↦ play_stops (if fails then play_threw read_failed else play_returned 0)
    | true ↦
        played (write (takes n) (events.read_event (take event_size s)))
          (play takes fails fuel (suc n) (drop event_size s))
  ]

  module _ (layout : Layout) (max_of : ℕ → ℕ) where
    abbrev pub legacy_grabbed :
        Evdev → (ℕ → ℕ → Option Bytes) → (ℕ → Bool) → List Answer → InDevice × Bool → Cat
    legacy_grabbed k states takes answers (d, true) =
        announced (write_netevent_header layout max_of k states d) (legacy_events takes 0 d answers)
    legacy_grabbed k states takes answers (d, false) = stops (threw grab_failed)

    -- `cmd_cat` with `--legacy`, from the grab on.
    unfoldable pub cat_legacy :
        Evdev → (ℕ → ℕ → Option Bytes) → (ℕ → Bool) → Bool → InDevice → List Answer → Cat
    unfolding legacy_events grab write_netevent_header
    cat_legacy k states takes opt_grab d answers =
        legacy_grabbed k states takes answers (if opt_grab then grab k true d else (d, true))

    abbrev pub made :
        (ℕ → InputEvent → Bool) → Bool → Result (OutDevice × Bool) → Option OutDevice × Played
    made takes fails (err e) = (none, play_stops (play_threw (device_error e)))
    made takes fails (ok (dev, modern) rest) =
        (some dev, play takes fails (suc (length rest)) 0 rest)

    -- `cmd_create_legacy`: the device, and what was written to it.
    unfoldable pub create_legacy :
        Uinput → (ℕ → InputEvent → Bool) → Bool → Bytes → Option OutDevice × Played
    unfolding play new_from_netevent_stream
    create_legacy u takes fails s =
        made takes fails (new_from_netevent_stream layout max_of u true s)
