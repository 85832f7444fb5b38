-- ===== src/Create/Fuel.antt =====
-- The loop of `cmd_create` ends by itself: every packet takes bytes from the stream.
use netevent.Prelude.{
  ℕ, zero, suc, ◌≤◌, ◌<◌, ◌≡◌, ◌≢◌, refl, inl, inr, Bool, true, false, List, [], ◌∷◌, Option, none,
  some, Bytes, length, take, drop, leb, ltb, ◌==◌, if◌then◌else◌, arith, Bool-cases, Option-cases,
  length-drop,
}
use netevent.Packet.{
  InputEvent, packet_size, packet_cmd, packet_id, check_hello, HelloCheck, accepted, not_hello,
  bad_magic, version_mismatch, command_code, hello, keep_alive, add_device, remove_device,
  device_event, to_host,
}
use netevent.Device.Out.{OutDevice, Result, ok, err}
use netevent.Device.Out.Shrinks.{new_from_ne2_add_command-Shrinks}
use netevent.Daemon.Map.{find}
use netevent.Create.{
  World, Receiver, Duplicates, reject, resume, replace, Next, next, thrown, Ended, at_end, failed,
  out_of_fuel, Client, start, packets, on_packet, on_hello, on_add, on_remove, on_event, duplicate,
  add_to, remove_from, event_to, store_device, skip_device, clients, create, read_hello, stored,
  skipped, delivered, greeted, continue, ended,
}

-- What is left of the stream is no longer than it was.
abbrev Leaves : ℕ → Next → Type 0
Leaves n (next r rest) = length rest ≤ n
Leaves n (thrown e) = Unit {0}

stored-Leaves :
    (id n : ℕ) (r : Receiver) (o : Result (Option OutDevice × Bool))
    → ((a : Option OutDevice × Bool) (t : Bytes) → o ≡ ok a t → length t ≤ n)
    → Leaves n (stored id r o)
unfolding stored
stored-Leaves id n r (err e) h = tt
stored-Leaves id n r (ok (none, modern) rest) h = h (none, modern) rest refl
stored-Leaves id n r (ok (some dev, modern) rest) h = h (some dev, modern) rest refl

skipped-Leaves :
    (n : ℕ) (r : Receiver) (o : Result (Option OutDevice × Bool))
    → ((a : Option OutDevice × Bool) (t : Bytes) → o ≡ ok a t → length t ≤ n)
    → Leaves n (skipped r o)
unfolding skipped
skipped-Leaves n r (err e) h = tt
skipped-Leaves n r (ok (dev, modern) rest) h = h (dev, modern) rest refl

delivered-Leaves :
    (fd : ℕ) (r : Receiver) (s : Bytes) (o : Option (List InputEvent))
    → Leaves (length s) (delivered fd r s o)
unfolding delivered
delivered-Leaves fd r s none = tt
delivered-Leaves fd r s (some evs) = omega arith

greeted-Leaves : (r : Receiver) (s : Bytes) (c : HelloCheck) → Leaves (length s) (greeted r s c)
unfolding greeted
greeted-Leaves r s accepted = omega arith
greeted-Leaves r s not_hello = tt
greeted-Leaves r s bad_magic = tt
greeted-Leaves r s version_mismatch = tt

module _ (w : World) where
  store_device-Leaves :
      (id : ℕ) (pkt : Bytes) (r : Receiver) (s : Bytes)
      → Leaves (length s) (store_device w id pkt r s)
  unfolding store_device
  store_device-Leaves id pkt r s =
      stored-Leaves id (length s) r _
        ((new_from_ne2_add_command-Shrinks (w.driver r.announced) r.modern false pkt).at s)

  duplicate-Leaves :
      (mode : Duplicates) (id : ℕ) (pkt : Bytes) (r : Receiver) (s : Bytes)
      → Leaves (length s) (duplicate w mode id pkt r s)
  unfolding duplicate skip_device
  duplicate-Leaves reject id pkt r s = tt
  duplicate-Leaves resume id pkt r s =
      skipped-Leaves (length s) r _
        ((new_from_ne2_add_command-Shrinks (w.driver r.announced) r.modern true pkt).at s)
  duplicate-Leaves replace id pkt r s = store_device-Leaves id pkt r s

  add_to-Leaves :
      (mode : Duplicates) (id : ℕ) (pkt : Bytes) (r : Receiver) (s : Bytes) (o : Option OutDevice)
      → Leaves (length s) (add_to w mode id pkt r s o)
  unfolding add_to
  add_to-Leaves mode id pkt r s none = store_device-Leaves id pkt r s
  add_to-Leaves mode id pkt r s (some old) = duplicate-Leaves mode id pkt r s

  remove_from-Leaves :
      (id : ℕ) (r : Receiver) (s : Bytes) (o : Option OutDevice)
      → Leaves (length s) (remove_from w id r s o)
  unfolding remove_from
  remove_from-Leaves id r s none = tt
  remove_from-Leaves id r s (some dev) = omega arith

  event_to-Leaves :
      (id : ℕ) (ev : InputEvent) (r : Receiver) (s : Bytes) (o : Option OutDevice)
      → Leaves (length s) (event_to w id ev r s o)
  unfolding event_to
  event_to-Leaves id ev r s none = tt
  event_to-Leaves id ev r s (some dev) = delivered-Leaves dev.fd r s _

  on_add-Leaves :
      (mode : Duplicates) (pkt : Bytes) (r : Receiver) (s : Bytes)
      → Leaves (length s) (on_add w mode pkt r s)
  unfolding on_add
  on_add-Leaves mode pkt r s = add_to-Leaves mode (packet_id pkt) pkt r s _

  on_remove-Leaves :
      (pkt : Bytes) (r : Receiver) (s : Bytes) → Leaves (length s) (on_remove w pkt r s)
  unfolding on_remove
  on_remove-Leaves pkt r s = remove_from-Leaves (packet_id pkt) r s _

  on_event-Leaves :
      (pkt : Bytes) (r : Receiver) (s : Bytes) → Leaves (length s) (on_event w pkt r s)
  unfolding on_event
  on_event-Leaves pkt r s =
      event_to-Leaves (packet_id pkt) (to_host (drop 4 pkt)) r s
        (find ltb (packet_id pkt) r.devices)

  pick-Leaves :
      (n : ℕ) (b : Bool) (x y : Next) → Leaves n x → Leaves n y → Leaves n (if b then x else y)
  pick-Leaves n true x y hx hy = hx
  pick-Leaves n false x y hx hy = hy

  on_packet-Leaves :
      (mode : Duplicates) (pkt : Bytes) (r : Receiver) (s : Bytes)
      → Leaves (length s) (on_packet w mode pkt r s)
  unfolding on_packet
  on_packet-Leaves mode pkt r s =
      pick-Leaves (length s) (packet_cmd pkt == command_code hello) (on_hello w pkt r s) _
        (unfold on_hello in greeted-Leaves r s (check_hello pkt))
        (pick-Leaves (length s) (packet_cmd pkt == command_code keep_alive) (next r s) _
          (omega arith)
          (pick-Leaves (length s) (packet_cmd pkt == command_code add_device)
            (on_add w mode pkt r s) _ (on_add-Leaves mode pkt r s)
            (pick-Leaves (length s) (packet_cmd pkt == command_code remove_device)
              (on_remove w pkt r s) _ (on_remove-Leaves pkt r s)
              (pick-Leaves (length s) (packet_cmd pkt == command_code device_event)
                (on_event w pkt r s) _ (on_event-Leaves pkt r s) tt))))

  -- The loop behind a packet does not run out of fuel when the rounds behind it do not.
  continue-ends :
      (loop : Receiver → Bytes → Ended) (n : ℕ) (r : Receiver) (x : Next)
      → Leaves n x
      → ((r' : Receiver) (s : Bytes) → length s ≤ n → loop r' s ≢ out_of_fuel)
      → continue loop r x ≢ out_of_fuel
  continue-ends loop n r (next r' rest) l h = h r' rest l
  continue-ends loop n r (thrown e) l h = λ q. cc

  packets-ends :
      (mode : Duplicates) (fuel : ℕ) (r : Receiver) (s : Bytes)
      → length s < fuel
      → packets w mode fuel r s ≢ out_of_fuel
  unfolding packets
  packets-ends mode zero r s h = absurd (omega arith)
  packets-ends mode (suc fuel) r s h = elim (Bool-cases (leb packet_size (length s))) [
    | inl e ↦
        rw (e, packets)
          (continue-ends (packets w mode fuel) (length (drop packet_size s)) r _
            (on_packet-Leaves mode (take packet_size s) r (drop packet_size s))
            (λ r' t l. packets-ends mode fuel r' t (ground (arith, length-drop packet_size s))))
    | inr e ↦ rw (e, packets) (λ q. cc)
  ]

  ended-ends :
      (more : Receiver → Ended) (listening fails : Bool) (x : Ended)
      → x ≢ out_of_fuel
      → ((r : Receiver) → more r ≢ out_of_fuel)
      → ended more listening fails x ≢ out_of_fuel
  ended-ends more listening true (at_end r) h k = λ q. cc
  ended-ends more true false (at_end r) h k = k r
  ended-ends more false false (at_end r) h k = λ q. cc
  ended-ends more listening fails (failed e r) h k = λ q. cc
  ended-ends more listening fails out_of_fuel h k = h

  clients-ends :
      (mode : Duplicates) (listening : Bool) (cs : List Client) (r : Receiver)
      → clients w mode listening cs r ≢ out_of_fuel
  unfolding clients
  clients-ends mode listening [] r = λ q. cc
  clients-ends mode listening (c ∷ cs) r =
      ended-ends (clients w mode listening cs) listening c.fails _
        (packets-ends mode (suc (length c.bytes)) r c.bytes (omega arith))
        (clients-ends mode listening cs)

  -- Whatever clients come and whatever they send, the loop ends by itself: it returns at the end of
  -- a stream or throws.
  pub create-ends :
      (mode : Duplicates) (listening : Bool) (cs : List Client)
      → create w mode listening cs ≢ out_of_fuel
  unfolding create
  create-ends mode listening [] = λ q. cc
  create-ends mode listening (c ∷ cs) = elim (Option-cases (read_hello c.bytes)) [
    | inl e ↦ rw (e, create) (λ q. cc)
    | inr (rest, e) ↦
        rw (e, create) (clients-ends mode listening (record c { bytes = rest } ∷ cs) start)
  ]
