-- ===== src/Packet/Laws.antt =====
-- Sizes, and what the receiver reads of what the sender wrote.
use netevent.Prelude.{ℕ, ◌^◌, ◌<◌, ◌≡◌, refl, ap, ◌∙◌, [], ◌∷◌, Bytes, length, arith, take, drop}
use netevent.Wire.{be16toh}
use netevent.Packet.{
  InputEvent, IsValid, to_net, to_host, event_packet, remove_packet, add_packet, packet_cmd,
  packet_id, packet_size, command_code, device_event, remove_device, add_device,
}

take_four : (b : Bytes) → length b ≡ 4 → take 4 b ≡ b
take_four [] h = refl
take_four (a ∷ []) h = refl
take_four (a ∷ b ∷ []) h = refl
take_four (a ∷ b ∷ c ∷ []) h = refl
take_four (a ∷ b ∷ c ∷ d ∷ []) h = refl
take_four (a ∷ b ∷ c ∷ d ∷ e ∷ r) h = absurd (omega arith)

-- An event whose fields fit their types is the same after `toNet` on one host and `toHost` on
-- another.
pub to_host-to_net : (ev : InputEvent) → IsValid ev → to_host (to_net ev) ≡ ev
unfolding to_host to_net
to_host-to_net ev v = ground (arith, take_four ev.padding v.padding_size)

drop-event_packet : (id : ℕ) (ev : InputEvent) → drop 4 (event_packet id ev) ≡ to_net ev
unfolding event_packet
drop-event_packet id ev = refl

-- Every event packet is 28 bytes long, and the receiver finds in it the event command, the
-- identifier and the event, if these fit their fields.
pub event_packet_read :
    (id : ℕ) (ev : InputEvent)
    → id < 2 ^ 16
    → IsValid ev
    → (length (event_packet id ev) ≡ packet_size)
      × (packet_cmd (event_packet id ev) ≡ command_code device_event)
      × (packet_id (event_packet id ev) ≡ id)
      × (to_host (drop 4 (event_packet id ev)) ≡ ev)
event_packet_read id ev h v = (
  unfold event_packet in omega (arith, v.padding_size),
  unfold event_packet packet_cmd in omega arith,
  unfold event_packet packet_id in omega arith,
  ap to_host (drop-event_packet id ev) ∙ to_host-to_net ev v,
)

-- The removal packet is 28 bytes long and is read as the removal of its identifier; the packet that
-- adds a device is 28 bytes long and is read as the addition of its identifier, with the two sizes.
pub device_packets_read :
    (id info_size name_size : ℕ)
    → id < 2 ^ 16
    → info_size < 2 ^ 16
    → name_size < 2 ^ 16
    → ((length (remove_packet id) ≡ packet_size)
        × (packet_cmd (remove_packet id) ≡ command_code remove_device)
        × (packet_id (remove_packet id) ≡ id))
      × ((length (add_packet id info_size name_size) ≡ packet_size)
          × (packet_cmd (add_packet id info_size name_size) ≡ command_code add_device)
          × (packet_id (add_packet id info_size name_size) ≡ id)
          × (be16toh (drop 4 (add_packet id info_size name_size)) ≡ info_size)
          × (be16toh (drop 6 (add_packet id info_size name_size)) ≡ name_size))
unfolding remove_packet add_packet packet_cmd packet_id
device_packets_read id info_size name_size h i n =
    ((refl, refl, omega arith), (refl, refl, omega arith, omega arith, omega arith))
