-- ===== src/Create/Session.antt =====
-- Whole sessions of `netevent create`: the loop over the packets of its clients against the messages
-- that they encode.
use netevent.Prelude.{
  ℕ, zero, suc, ◌<◌, ◌≡◌, refl, subst, sym, Bool, true, false, List, [], ◌∷◌, ◌++◌, some, Bytes,
  length, take, drop, leb, str_eq, arith, append_assoc, length-append,
}
use netevent.Packet.{packet_size, hello_packet, check_hello}
use netevent.Wire.{htobe16, be16toh}
use netevent.Daemon.Map.{find}
use netevent.Create.{
  World, Receiver, Duplicates, Next, next, thrown, Ended, at_end, failed, out_of_fuel, start,
  packets, on_packet, clients, create, read_hello, continue, ended,
}
use netevent.Create.Messages.{
  Message, encode, encode_all, AllFit, Session, Verdict, goes, stops, said, going, all_said,
}
use netevent.Create.Refines.{Refines}
use netevent.Create.Step.{Agrees, head, body, Serves, on_packet-Agrees}
use netevent.Create.Heard.{
  Matches, Transmission, TransmissionFits, AllTransmissionsFit, sent, senders, heard, silent, round,
  encode_all_size,
}

module _ (w : World) (fds : ℕ → ℕ) (serves : Serves w fds) where
  continue-Matches :
      (rest : Session → Verdict) (loop : Receiver → Bytes → Ended) (r : Receiver) (tail : Bytes)
      (v : Verdict) (x : Next)
      → Agrees v tail x
      → ((r' : Receiver) (s : Session) → Refines r' s → Matches (rest s) (loop r' tail))
      → Matches (going fds rest v) (continue loop r x)
  continue-Matches rest loop r tail (goes s) (next r' t) a k =
      subst (λ (b : Bytes). Matches (rest s) (loop r' b)) (sym a.1) (k r' s a.0)
  continue-Matches rest loop r tail (goes s) (thrown e) a k = absurd a
  continue-Matches rest loop r tail (stops e) (next r' t) a k = absurd a
  continue-Matches rest loop r tail (stops e) (thrown e') a k = a

  packets_one :
      (mode : Duplicates) (fuel : ℕ) (r : Receiver) (s packet rest : Bytes)
      → take packet_size s ≡ packet
      → drop packet_size s ≡ rest
      → leb packet_size (length s) ≡ true
      → packets w mode (suc fuel) r s
        ≡ continue (packets w mode fuel) r (on_packet w mode packet r rest)
  unfolding packets
  packets_one mode fuel r s packet rest p q l = rw (l, p, q, packets) refl

  packets-Matches :
      (mode : Duplicates) (ms : List Message) (cut : Bytes) (fuel : ℕ) (r : Receiver) (s : Session)
      → length ms < fuel
      → AllFit ms
      → length cut < packet_size
      → Refines r s
      → Matches (all_said fds mode ms s) (packets w mode fuel r (encode_all ms ++ cut))
  unfolding all_said packets
  packets-Matches mode ms cut zero r s n h c f = absurd (omega arith)
  packets-Matches mode [] cut (suc fuel) r s n h c f =
      let short : leb packet_size (length cut) ≡ false = ground arith in rw (short, packets) f
  packets-Matches mode (m ∷ ms) cut (suc fuel) r s n h c f =
      let (p, q, l) = round m (encode_all ms ++ cut) h.0 in
      rw
        (
          append_assoc (encode m) (encode_all ms) cut,
          packets_one mode fuel r (encode m ++ (encode_all ms ++ cut)) (head m)
              (body m (encode_all ms ++ cut)) p q l,
        )
        (continue-Matches (all_said fds mode ms) (packets w mode fuel) r (encode_all ms ++ cut)
          (said fds mode s m) (on_packet w mode (head m) r (body m (encode_all ms ++ cut)))
          (on_packet-Agrees w fds serves mode m r s (encode_all ms ++ cut) f h.0)
          (λ r' s' g. packets-Matches mode ms cut fuel r' s' (omega arith) h.1 c g))

  going-going :
      (all first second : Session → Verdict) (v : Verdict)
      → ((s : Session) → all s ≡ going fds second (first s))
      → going fds all v ≡ going fds second (going fds first v)
  going-going all first second (goes s) h = h s
  going-going all first second (stops e) h = refl

  all_said-append :
      (mode : Duplicates) (ms ns : List Message) (s : Session)
      → all_said fds mode (ms ++ ns) s ≡ going fds (all_said fds mode ns) (all_said fds mode ms s)
  unfolding all_said
  all_said-append mode [] ns s = refl
  all_said-append mode (m ∷ ms) ns s =
      going-going (all_said fds mode (ms ++ ns)) (all_said fds mode ms) (all_said fds mode ns)
        (said fds mode s m) (all_said-append mode ms ns)

  -- The end of a client against the messages of the next ones.
  ended-Matches :
      (rest : Session → Verdict) (more : Receiver → Ended) (v : Verdict) (x : Ended)
      → Matches v x
      → ((r : Receiver) (s : Session) → Refines r s → Matches (rest s) (more r))
      → Matches (going fds rest v) (ended more true false x)
  ended-Matches rest more (goes s) (at_end r) a k = k r s a
  ended-Matches rest more (goes s) (failed e r) a k = absurd a
  ended-Matches rest more (goes s) out_of_fuel a k = absurd a
  ended-Matches rest more (stops e) (at_end r) a k = absurd a
  ended-Matches rest more (stops e) (failed e' r) a k = a
  ended-Matches rest more (stops e) out_of_fuel a k = absurd a

  ended_once :
      (more : Receiver → Ended) (v : Verdict) (x : Ended)
      → Matches v x
      → Matches v (ended more false false x)
  ended_once more (goes s) (at_end r) a = a
  ended_once more (goes s) (failed e r) a = a
  ended_once more (goes s) out_of_fuel a = a
  ended_once more (stops e) (at_end r) a = a
  ended_once more (stops e) (failed e' r) a = a
  ended_once more (stops e) out_of_fuel a = a

  client-Matches :
      (mode : Duplicates) (t : Transmission) (r : Receiver) (s : Session)
      → TransmissionFits t
      → Refines r s
      → Matches (all_said fds mode t.messages s) (packets w mode (suc (length (sent t))) r (sent t))
  client-Matches mode t r s h f =
      packets-Matches mode t.messages t.cut _ r s
        (omega (arith, encode_all_size t.messages h.0, length-append (encode_all t.messages) t.cut))
        h.0 h.1 f

  clients-Matches :
      (mode : Duplicates) (listening : Bool) (ts : List Transmission) (r : Receiver) (s : Session)
      → AllTransmissionsFit ts
      → Refines r s
      → Matches (all_said fds mode (heard listening ts) s) (clients w mode listening (senders ts) r)
  unfolding clients all_said
  clients-Matches mode listening [] r s h f = f
  clients-Matches mode true (t ∷ ts) r s h f =
      rw (all_said-append mode t.messages (heard true ts) s) (
        ended-Matches (all_said fds mode (heard true ts)) (clients w mode true (senders ts)) _ _
          (client-Matches mode t r s h.0 f) (λ r' s' g. clients-Matches mode true ts r' s' h.1 g))
  clients-Matches mode false (t ∷ ts) r s h f =
      ended_once (clients w mode false (senders ts)) _ _ (client-Matches mode t r s h.0 f)

  read_hello-greeting : (s : Bytes) → read_hello (hello_packet ++ s) ≡ some s
  unfolding read_hello hello_packet htobe16 be16toh check_hello str_eq
  read_hello-greeting s =
      let enough : leb packet_size (length (hello_packet ++ s)) ≡ true = ground arith in
      rw (enough, read_hello) refl

  -- `netevent create` does what the messages of its clients say. The first client greets and sends
  -- messages; a socket that listens takes the messages of the clients behind it for the same session.
  -- Where the messages are accepted, the loop ends, and its devices, its count of announcements and
  -- the events written, in their order, are those of the session: the devices by their identifiers
  -- as announced, replaced, kept or removed last, the events of those devices but force feedback. Where a message is
  -- refused, the loop throws the exception of the first such message. A packet that a client does
  -- not finish changes nothing. The numbers fit their fields, the drivers work and the devices take their events.
  pub create-Matches :
      (mode : Duplicates) (listening : Bool) (t : Transmission) (ts : List Transmission)
      → AllTransmissionsFit (t ∷ ts)
      → Matches (all_said fds mode (heard listening (t ∷ ts)) silent) (
          create w mode listening
            (record { bytes = hello_packet ++ sent t; fails = false } ∷ senders ts))
  unfolding create find
  create-Matches mode listening t ts h =
      rw (create, read_hello-greeting (sent t))
        (clients-Matches mode listening (t ∷ ts) start silent h record {
          devices_agree = λ id. refl;
          in_order = tt;
          announced_agree = refl;
          written_agree = refl;
          stays_modern = refl;
        })
