-- ===== src/Cat/Pipeline.antt =====
-- `netevent cat` piped into `netevent create`.
use netevent.Prelude.{
  ℕ, ◌≡◌, refl, ap, subst, sym, ◌∙◌, Bool, true, false, List, [], ◌∷◌, ◌++◌, none, some, ◌==◌,
  if◌then◌else◌, arith, append_assoc, append-nil,
}
use mathlib.Core.Path.{ap₂}
use netevent.Packet.{InputEvent, hello_packet}
use netevent.Text.Event.{ev_ff}
use netevent.Device.In.{InDevice, grab, write_ne2_add_device}
use netevent.Device.In.Reads.{Answer, Stop, RawEvent, Node, open_device, opens, event_of}
use netevent.Device.Transfer.Spec.{answering, concat, event_types}
use netevent.Device.Transfer.Sent.{write-Sends, concat-append}
use netevent.Cat.{threw, read_error, Output, cat, cat_device}
use netevent.Device.Out.{OutDevice, c_name}
use netevent.Create.{World, Duplicates, create}
use netevent.Create.Step.{Serves}
use netevent.Create.Heard.{Matches, Transmission, heard, sent, silent}
use netevent.Create.Session.{create-Matches}
use netevent.Create.Messages.{
  Description, Fits, Message, announce, encode_all, Session, Verdict, goes, update, device_for,
  said, all_said,
}
use netevent.Cat.Events.{answers, events, read_end, reached, events_fit, cat_events_lem}

-- A kernel that answers in full about a device, and the device that is opened there.
abbrev pub node : ℕ → Description → Node
node fd desc = record {
  opened = some fd;
  name_buffer = some desc.name;
  identity = some desc.id;
  types = λ size. some desc.evs;
}

abbrev pub device : ℕ → Bool → Description → InDevice
device fd on desc = record {
  fd = fd;
  eof = false;
  grabbing = on;
  persistent = false;
  dev_name = desc.name;
  dev_id = desc.id;
  name = c_name desc.name;
  evbits = event_types desc.evs;
}

-- The greeting, the announcement and the events.
cat_device-encodes :
    (out : Output) (desc : Description) (fd : ℕ) (on : Bool) (raws : List RawEvent) (s : Stop)
    → out.takes_hello ≡ true
    → ((i : ℕ) → out.takes i ≡ true)
    → Fits desc
    → let c =
        cat_device (answering desc.bits_of desc.abs_of) out (device fd on desc) (answers raws s) in
      (concat c.sent ≡ hello_packet ++ encode_all (announce 0 desc ∷ events raws))
      × (c.ended ≡ threw (read_error (read_end s)))
unfolding cat_device
cat_device-encodes out desc fd on raws s h t f =
    let k = answering desc.bits_of desc.abs_of in
    let (done, first) =
      write-Sends desc.bits_of desc.abs_of 0 (device fd on desc) desc.evs refl f.types_fit in
    let (rest, ended) = cat_events_lem out.takes 0 (device fd on desc) raws s t refl in
    rw (cat_device, h, done)
      (
        ap (◌++◌ hello_packet) (
            concat-append (write_ne2_add_device k 0 (device fd on desc)).sent _
            ∙ ap₂ (◌++◌) first rest),
        ended,
      )

module _ (fds : ℕ → ℕ) where
  events_said :
      (raws : List RawEvent) (mode : Duplicates) (s : Session) (dev : OutDevice)
      → s.device_of 0 ≡ some dev
      → all_said fds mode (events raws) s
        ≡ goes (record s { written = s.written ++ reached dev.fd raws })
  unfolding all_said said
  events_said [] mode s dev h =
      ap goes
        (ap (λ (l : List (ℕ × InputEvent)). record s { written = l }) (sym (append-nil s.written)))
  events_said (raw ∷ raws) mode s dev h =
      let one : List (ℕ × InputEvent) =
        if (event_of raw).type == ev_ff then [] else (dev.fd, event_of raw) ∷ [] in
      rw (h) (
        events_said raws mode (record s { written = s.written ++ one }) dev h
        ∙ ap (λ (l : List (ℕ × InputEvent)). goes (record s { written = l }))
            (append_assoc s.written one (reached dev.fd raws)))

cat_grabs :
    (out : Output) (desc : Description) (fd : ℕ) (opt_grab : Bool) (l : List Answer)
    → cat (answering desc.bits_of desc.abs_of) out opt_grab (device fd false desc) l
      ≡ cat_device (answering desc.bits_of desc.abs_of) out (device fd opt_grab desc) l
unfolding cat grab
cat_grabs out desc fd true l = refl
cat_grabs out desc fd false l = refl

heard_one : (listening : Bool) (t : Transmission) → heard listening (t ∷ []) ≡ t.messages
heard_one true t = append-nil t.messages
heard_one false t = refl

-- What the receiver has in the end: the device under identifier 0, and its events.
abbrev pub shared : (ℕ → ℕ) → Description → List RawEvent → Session
shared fds desc raws = record {
  device_of = update (λ id. none) 0 (some (device_for fds 0 desc));
  announced = 1;
  written = reached (fds 0) raws;
}

all_said-shared :
    (fds : ℕ → ℕ) (mode : Duplicates) (desc : Description) (raws : List RawEvent)
    → all_said fds mode (announce 0 desc ∷ events raws) silent ≡ goes (shared fds desc raws)
unfolding all_said
all_said-shared fds mode desc raws =
    events_said fds raws mode (shared fds desc []) (device_for fds 0 desc) refl

-- What `netevent cat` writes makes of `netevent create` a copy of the device. The device is opened,
-- and the kernel answers its requests in full; it delivers events and then goes away or fails. Then
-- `cat` throws, because of that, and `create` ends at the end of the stream: it has the one device,
-- under identifier 0, as described by the name, the identifier, the event types, codes and axes of
-- the original, and it has written to it all events but those of force feedback, in their order.
-- The parts of the description fit their fields, the outputs take what is written and the driver of
-- the receiver works.
pub cat-create :
    (w : World) (fds : ℕ → ℕ) (mode : Duplicates) (listening opt_grab : Bool) (out : Output)
    (desc : Description) (fd : ℕ) (raws : List RawEvent) (s : Stop)
    → Serves w fds
    → out.takes_hello ≡ true
    → ((i : ℕ) → out.takes i ≡ true)
    → Fits desc
    → let c =
        cat
          (answering desc.bits_of desc.abs_of)
          out
          opt_grab
          (device fd false desc)
          (answers raws s) in
      (open_device (node fd desc) ≡ opens (device fd false desc))
      × (c.ended ≡ threw (read_error (read_end s)))
      × Matches
          (goes (shared fds desc raws))
          (create w mode listening (record { bytes = concat c.sent; fails = false } ∷ []))
unfolding open_device
cat-create w fds mode listening opt_grab out desc fd raws s serves h t f =
    let ms : List Message = announce 0 desc ∷ events raws in
    let stream : Transmission = record { messages = ms; cut = [] } in
    let (bytes, ended) = cat_device-encodes out desc fd opt_grab raws s h t f in
    let whole : concat
          (cat_device (answering desc.bits_of desc.abs_of) out (device fd opt_grab desc)
            (answers raws s)).sent
        ≡ hello_packet ++ sent stream =
      bytes ∙ ap (◌++◌ hello_packet) (sym (append-nil (encode_all ms))) in
    let said_all : all_said fds mode (heard listening (stream ∷ [])) silent
        ≡ goes (shared fds desc raws) =
      ap (λ (l : List Message). all_said fds mode l silent) (heard_one listening stream)
      ∙ all_said-shared fds mode desc raws in
    rw (cat_grabs out desc fd opt_grab (answers raws s), whole)
      (
        refl,
        ended,
        subst
            (λ (v : Verdict). Matches v (
              create w mode listening
                (record { bytes = hello_packet ++ sent stream; fails = false } ∷ [])))
            said_all
            (create-Matches w fds serves mode listening stream []
              ((((omega arith, f), events_fit raws), omega arith), tt)),
      )
