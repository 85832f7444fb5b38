-- ===== src/Cat/Events.antt =====
-- The events of a device in `netevent cat`, as messages.
use netevent.Prelude.{
  ℕ, suc, ◌≡◌, refl, ap, Bool, true, false, not, List, [], ◌∷◌, ◌++◌, ◌==◌, if◌then◌else◌, arith,
}
use netevent.Packet.{InputEvent, IsValid, event_packet}
use netevent.Text.Event.{ev_ff}
use netevent.Device.In.{InDevice}
use netevent.Device.In.Reads.{
  Answer, got, arrived, stopped, Stop, RawEvent, event_of, read, gone, broken, unexpected_eof,
  read_failed, ReadError,
}
use netevent.Device.Transfer.Spec.{concat}
use netevent.Cat.{Cat, threw, read_error, cat_events, round, sending}
use netevent.Create.Messages.{Message, event, encode_all, AllFit}

-- A device that delivers these events and then stops.
abbrev pub answers : List RawEvent → Stop → List Answer
answers [] s = stopped s ∷ []
answers (raw ∷ raws) s = arrived raw ∷ answers raws s

abbrev pub events : List RawEvent → List Message
events [] = []
events (raw ∷ raws) = event 0 (event_of raw) ∷ events raws

abbrev pub read_end : Stop → ReadError
read_end gone = unexpected_eof
read_end (broken e) = read_failed e

-- The events that a device of another machine gets: all but those of force feedback.
abbrev pub reached : ℕ → List RawEvent → List (ℕ × InputEvent)
reached fd [] = []
reached fd (raw ∷ raws) =
    (if (event_of raw).type == ev_ff then [] else (fd, event_of raw) ∷ []) ++ reached fd raws

pub event_of-IsValid : (raw : RawEvent) → IsValid (event_of raw)
event_of-IsValid raw = record {
  sec_fits = omega arith;
  usec_fits = omega arith;
  type_fits = omega arith;
  code_fits = omega arith;
  value_fits = omega arith;
  padding_size = refl;
}

pub events_fit : (raws : List RawEvent) → AllFit (events raws)
events_fit [] = tt
events_fit (raw ∷ raws) = ((omega arith, event_of-IsValid raw), events_fit raws)

round_sends :
    (c : Cat) (ev : InputEvent) (taken eof : Bool)
    → taken ≡ true
    → eof ≡ false
    → round c taken (got ev (not eof)) ≡ sending (event_packet 0 ev) c
unfolding round
round_sends c ev taken eof t e = rw (t, e, not) refl

-- The loop sends the packets of the events, one after the other, and ends as the device does.
pub cat_events_lem :
    (takes : ℕ → Bool) (n : ℕ) (d : InDevice) (raws : List RawEvent) (s : Stop)
    → ((i : ℕ) → takes i ≡ true)
    → d.eof ≡ false
    → (concat (cat_events takes n d (answers raws s)).sent ≡ encode_all (events raws))
      × ((cat_events takes n d (answers raws s)).ended ≡ threw (read_error (read_end s)))
unfolding cat_events round read
cat_events_lem takes n d [] gone t e = (refl, refl)
cat_events_lem takes n d [] (broken x) t e = (refl, refl)
cat_events_lem takes n d (raw ∷ raws) s t e =
    let (p, q) = cat_events_lem takes (suc n) d raws s t e in
    rw
      (round_sends (cat_events takes (suc n) d (answers raws s)) (event_of raw) (takes n) d.eof
        (t n) e)
      (ap (◌++◌ (event_packet 0 (event_of raw))) p, q)
