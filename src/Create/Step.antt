-- ===== src/Create/Step.antt =====
-- One packet of `netevent create` against its message.
use netevent.Prelude.{
  ℕ, suc, ◌^◌, ◌<◌, ◌≡◌, refl, ap, subst, str_eq, sym, ◌∙◌, inl, inr, true, List, [], ◌∷◌, ◌++◌,
  Option, none, some, Bytes, replicate, ltb, ◌==◌, if◌then◌else◌, arith, Bool-cases,
}
use mathlib.Core.Path.{ap₂}
use netevent.Wire.{htobe16, be16toh}
use netevent.Text.Event.{ev_ff}
use netevent.Packet.{
  InputEvent, hello_packet, add_packet, remove_packet, event_packet, command_code, keep_alive,
  IsValid, packet_cmd, packet_id, check_hello,
}
use netevent.Packet.Laws.{event_packet_read, device_packets_read}
use netevent.Device.{name_size, info_size}
use netevent.Device.Out.{OutDevice, write}
use netevent.Device.Transfer.Spec.{announcement}
use netevent.Device.Transfer.Read.{Works, new_from_ne2_add_command-announcement}
use netevent.Device.Transfer.Skip.{new_from_ne2_add_command-skipped}
use netevent.Daemon.Map.{find}
use netevent.Daemon.Map.Numbers.{erase-Ascending, find-erase_num}
use netevent.Create.{
  World, Receiver, Duplicates, reject, resume, replace, Next, next, thrown, on_packet, on_hello,
  on_add, on_remove, on_event, add_to, remove_from, event_to, duplicate, store_device, skip_device,
  stored, skipped, delivered, greeted,
}
use netevent.Create.Messages.{
  Description, Fits, Message, greet, alive, announce, remove, event, MessageFits, Session, Verdict,
  goes, stops, announced_new, announced_to, removed_from, event_for, said,
}
use netevent.Create.Refines.{Refines, added-Refines, counted-Refines, written-Refines}

-- The receiver goes where the session goes, with this rest of the stream; or both stop by the same
-- exception.
abbrev pub Agrees : Verdict → Bytes → Next → Type 0
Agrees (goes s) tail (next r rest) = Refines r s × (rest ≡ tail)
Agrees (goes s) tail (thrown e) = ⊥
Agrees (stops e) tail (next r rest) = ⊥
Agrees (stops e) tail (thrown e') = e' ≡ e

-- The packet of a message, and what follows it.
abbrev pub head : Message → Bytes
head greet = hello_packet
head alive = htobe16 (command_code keep_alive) ++ replicate 26 0
head (announce number d) = add_packet number info_size name_size
head (remove id) = remove_packet id
head (event id ev) = event_packet id ev

abbrev pub body : Message → Bytes → Bytes
body (announce number d) tail = announcement d.bits_of d.abs_of d.name d.id d.evs tail
body m tail = tail

-- All drivers work, and every device takes every event.
pub record Serves (w : World) (fds : ℕ → ℕ) : Type 0 where
  pub works : (n : ℕ) → Works (w.driver n) (fds n)
  pub takes_all : (n : ℕ) (ev : InputEvent) → w.takes n ev ≡ true

module _ (w : World) (fds : ℕ → ℕ) (serves : Serves w fds) where
  new_device-Agrees :
      (number : ℕ) (d : Description) (r : Receiver) (s : Session) (tail : Bytes)
      → Refines r s
      → Fits d
      → Agrees (announced_new fds number d s) tail (
          store_device w number
            (add_packet number info_size name_size)
            r
            (body (announce number d) tail))
  unfolding store_device stored
  new_device-Agrees number d r s tail f h =
      rw
        (
          f.stays_modern,
          new_from_ne2_add_command-announcement (w.driver r.announced) (fds r.announced) true
              d.bits_of d.abs_of number d.name d.id d.evs tail (serves.works r.announced) h.full
              h.axes_fit h.name_fits h.name_ends h.id_fits h.types_fit,
        )
        (added-Refines fds number d r s f, refl)

  skipped_device-Agrees :
      (number : ℕ) (d : Description) (r : Receiver) (s : Session) (tail : Bytes)
      → Refines r s
      → Fits d
      → Agrees
          (goes (record s { announced = suc s.announced }))
          tail
          (skip_device w (add_packet number info_size name_size) r (body (announce number d) tail))
  unfolding skip_device skipped
  skipped_device-Agrees number d r s tail f h =
      rw
        (new_from_ne2_add_command-skipped (w.driver r.announced) d.bits_of d.abs_of h.full r.modern
          number d.name d.id d.evs tail h.name_fits h.types_fit)
        (counted-Refines r s f, refl)

  -- An announcement, by the device that has its identifier.
  add_to-Agrees :
      (mode : Duplicates) (number : ℕ) (d : Description) (r : Receiver) (s : Session) (tail : Bytes)
      (o : Option OutDevice)
      → Refines r s
      → Fits d
      → Agrees (announced_to fds mode number d s o) tail (
          add_to w mode number
            (add_packet number info_size name_size)
            r
            (body (announce number d) tail)
            o)
  unfolding add_to duplicate
  add_to-Agrees mode number d r s tail none f h = new_device-Agrees number d r s tail f h
  add_to-Agrees reject number d r s tail (some old) f h = refl
  add_to-Agrees resume number d r s tail (some old) f h =
      skipped_device-Agrees number d r s tail f h
  add_to-Agrees replace number d r s tail (some old) f h = new_device-Agrees number d r s tail f h

  -- A removal, by the device that it names.
  remove_from-Agrees :
      (id : ℕ) (r : Receiver) (s : Session) (tail : Bytes) (o : Option OutDevice)
      → Refines r s
      → Agrees (removed_from fds id s o) tail (remove_from w id r tail o)
  unfolding remove_from
  remove_from-Agrees id r s tail none f = refl
  remove_from-Agrees id r s tail (some dev) f = (
    record {
      devices_agree = λ j.
          find-erase_num j id r.devices f.in_order
          ∙ ap (λ (o : Option OutDevice). if j == id then none else o) (f.devices_agree j);
      in_order = erase-Ascending id r.devices f.in_order;
      announced_agree = f.announced_agree;
      written_agree = f.written_agree;
      stays_modern = f.stays_modern;
    },
    refl,
  )

  event_to-some :
      (id : ℕ) (ev : InputEvent) (r : Receiver) (tail : Bytes) (dev : OutDevice)
      → event_to w id ev r tail (some dev)
        ≡ next
            (record r {
              events = suc r.events;
              written = r.written ++ (if ev.type == ev_ff then [] else (dev.fd, ev) ∷ []);
            })
            tail
  unfolding event_to write delivered
  event_to-some id ev r tail dev = elim (Bool-cases (ev.type == ev_ff)) [
    | inl e ↦ rw e refl
    | inr e ↦ rw (e, serves.takes_all r.events ev) refl
  ]

  -- An event, by the device that it is for.
  event_to-Agrees :
      (id : ℕ) (ev : InputEvent) (r : Receiver) (s : Session) (tail : Bytes) (o : Option OutDevice)
      → Refines r s
      → Agrees (event_for fds id ev s o) tail (event_to w id ev r tail o)
  unfolding event_to
  event_to-Agrees id ev r s tail none f = refl
  event_to-Agrees id ev r s tail (some dev) f =
      let more : List (ℕ × InputEvent) = if ev.type == ev_ff then [] else (dev.fd, ev) ∷ [] in
      subst (Agrees (goes (record s { written = s.written ++ more })) tail)
        (sym (event_to-some id ev r tail dev)) (written-Refines more r s f, refl)

  -- The `switch` goes by the command of the packet.
  on_packet-add :
      (mode : Duplicates) (number : ℕ) (r : Receiver) (s : Bytes)
      → number < 2 ^ 16
      → on_packet w mode (add_packet number info_size name_size) r s
        ≡ add_to w mode number
            (add_packet number info_size name_size)
            r
            s
            (find ltb number r.devices)
  unfolding on_packet packet_cmd add_packet htobe16 be16toh on_add packet_id
  on_packet-add mode number r s n =
      ap
        (λ (k : ℕ).
          add_to w mode k (add_packet number info_size name_size) r s (find ltb k r.devices))
        (device_packets_read number info_size name_size n (omega arith) (omega arith)).1.2

  on_packet-remove :
      (mode : Duplicates) (id : ℕ) (r : Receiver) (s : Bytes)
      → id < 2 ^ 16
      → on_packet w mode (remove_packet id) r s ≡ remove_from w id r s (find ltb id r.devices)
  unfolding on_packet packet_cmd remove_packet htobe16 be16toh on_remove packet_id
  on_packet-remove mode id r s n =
      ap (λ (k : ℕ). remove_from w k r s (find ltb k r.devices))
        (device_packets_read id info_size name_size n (omega arith) (omega arith)).0.2

  on_packet-event :
      (mode : Duplicates) (id : ℕ) (ev : InputEvent) (r : Receiver) (s : Bytes)
      → id < 2 ^ 16
      → IsValid ev
      → on_packet w mode (event_packet id ev) r s ≡ event_to w id ev r s (find ltb id r.devices)
  unfolding on_packet packet_cmd event_packet htobe16 be16toh on_event packet_id
  on_packet-event mode id ev r s n v =
      let (_, _, number, same) = event_packet_read id ev n v in
      ap₂ (λ (k : ℕ) (x : InputEvent). event_to w k x r s (find ltb k r.devices)) number same

  on_packet-greet :
      (mode : Duplicates) (r : Receiver) (s : Bytes) → on_packet w mode hello_packet r s ≡ next r s
  unfolding on_packet packet_cmd hello_packet htobe16 be16toh on_hello greeted check_hello str_eq
  on_packet-greet mode r s = refl

  on_packet-alive :
      (mode : Duplicates) (r : Receiver) (s : Bytes)
      → on_packet w mode (htobe16 (command_code keep_alive) ++ replicate 26 0) r s ≡ next r s
  unfolding on_packet packet_cmd htobe16 be16toh
  on_packet-alive mode r s = refl

  -- The packet of a message does what the message says.
  pub on_packet-Agrees :
      (mode : Duplicates) (m : Message) (r : Receiver) (s : Session) (tail : Bytes)
      → Refines r s
      → MessageFits m
      → Agrees (said fds mode s m) tail (on_packet w mode (head m) r (body m tail))
  unfolding said
  on_packet-Agrees mode greet r s tail f h =
      subst (Agrees (goes s) tail) (sym (on_packet-greet mode r tail)) (f, refl)
  on_packet-Agrees mode alive r s tail f h =
      subst (Agrees (goes s) tail) (sym (on_packet-alive mode r tail)) (f, refl)
  on_packet-Agrees mode (announce number d) r s tail f h =
      rw (on_packet-add mode number r (body (announce number d) tail) h.0, f.devices_agree number)
        (add_to-Agrees mode number d r s tail (s.device_of number) f h.1)
  on_packet-Agrees mode (remove id) r s tail f h =
      rw (on_packet-remove mode id r tail h, f.devices_agree id)
        (remove_from-Agrees id r s tail (s.device_of id) f)
  on_packet-Agrees mode (event id ev) r s tail f h =
      rw (on_packet-event mode id ev r tail h.0 h.1, f.devices_agree id)
        (event_to-Agrees id ev r s tail (s.device_of id) f)
