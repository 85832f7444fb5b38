-- ===== src/Create/Heard.antt =====
-- The clients of `netevent create` as transmissions of messages, and the bytes that they are.
use netevent.Prelude.{
  ◌≤◌, ◌<◌, ◌≡◌, refl, ap, ◌∙◌, Bool, true, false, List, [], ◌∷◌, ◌++◌, none, Bytes, length, take,
  drop, leb, arith, append_assoc, take-append, drop-append, length-append,
}
use netevent.Packet.{packet_size, hello_packet, add_packet, remove_packet}
use netevent.Wire.{htobe16}
use netevent.Packet.Laws.{event_packet_read}
use netevent.Device.Transfer.Sent.{announcement-append}
use netevent.Create.{Ended, at_end, failed, out_of_fuel, Client}
use netevent.Create.Messages.{
  Message, greet, alive, announce, remove, event, encode, encode_all, MessageFits, AllFit, Session,
  Verdict, goes, stops,
}
use netevent.Create.Refines.{Refines}
use netevent.Create.Step.{head, body}

-- The loop ends with a receiver that holds what the session says, or with the exception by which the
-- session stops.
abbrev pub Matches : Verdict → Ended → Type 0
Matches (goes s) (at_end r) = Refines r s
Matches (goes s) (failed e r) = ⊥
Matches (goes s) out_of_fuel = ⊥
Matches (stops e) (at_end r) = ⊥
Matches (stops e) (failed e' r) = e' ≡ e
Matches (stops e) out_of_fuel = ⊥

-- What a client sends: messages, and a part of a packet that it does not finish.
pub record Transmission : Type 0 where
  pub messages : List Message
  pub cut : Bytes

abbrev pub TransmissionFits : Transmission → Type 0
TransmissionFits t = AllFit t.messages × (length t.cut < packet_size)

abbrev pub AllTransmissionsFit : List Transmission → Type 0
AllTransmissionsFit [] = Unit {0}
AllTransmissionsFit (t ∷ ts) = TransmissionFits t × AllTransmissionsFit ts

abbrev pub sent : Transmission → Bytes
sent t = encode_all t.messages ++ t.cut

abbrev pub senders : List Transmission → List Client
senders [] = []
senders (t ∷ ts) = record { bytes = sent t; fails = false } ∷ senders ts

-- The messages that are heard: those of the first client, and those of the others where the socket
-- listens.
abbrev pub heard : Bool → List Transmission → List Message
heard listening [] = []
heard true (t ∷ ts) = t.messages ++ heard true ts
heard false (t ∷ ts) = t.messages

-- The session before the first message.
abbrev pub silent : Session
silent = record { device_of = λ id. none; announced = 0; written = [] }

encode-split : (m : Message) (tail : Bytes) → encode m ++ tail ≡ head m ++ body m tail
encode-split greet tail = refl
encode-split alive tail = refl
encode-split (announce number d) tail =
    append_assoc _ _ tail
    ∙ ap (◌++◌ (head (announce number d)))
        (announcement-append d.bits_of d.abs_of d.name d.id d.evs tail)
encode-split (remove id) tail = refl
encode-split (event id ev) tail = refl

head_size : (m : Message) → MessageFits m → length (head m) ≡ packet_size
unfolding hello_packet htobe16 add_packet remove_packet
head_size greet h = refl
head_size alive h = refl
head_size (announce number d) h = refl
head_size (remove id) h = refl
head_size (event id ev) h = (event_packet_read id ev h.0 h.1).0

-- A stream that begins with a message has its packet in front.
pub round :
    (m : Message) (tail : Bytes)
    → MessageFits m
    → (take packet_size (encode m ++ tail) ≡ head m)
      × (drop packet_size (encode m ++ tail) ≡ body m tail)
      × (leb packet_size (length (encode m ++ tail)) ≡ true)
round m tail h = rw (encode-split m tail) (
  take-append packet_size (head m) (body m tail) (head_size m h),
  drop-append packet_size (head m) (body m tail) (head_size m h),
  ground (arith, length-append (head m) (body m tail), head_size m h),
)

-- There are no more messages than bytes.
pub encode_all_size : (ms : List Message) → AllFit ms → length ms ≤ length (encode_all ms)
encode_all_size [] h = omega arith
encode_all_size (m ∷ ms) h =
    let whole : length (encode m ++ []) ≡ length (head m ++ body m []) =
      ap length (encode-split m []) in
    omega (
      arith,
      whole,
      length-append (encode m) [],
      length-append (head m) (body m []),
      head_size m h.0,
      length-append (encode m) (encode_all ms),
      encode_all_size ms h.1,
    )
