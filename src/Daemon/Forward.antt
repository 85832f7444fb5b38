-- ===== src/Daemon/Forward.antt =====
-- Where the events of a device go (daemon.cpp, `readFromDevice`).
use netevent.Prelude.{
  ℕ, suc, ◌^◌, ◌<◌, ◌≡◌, refl, ap, ◌⊎◌, inl, inr, ◌∙◌, Bool, true, false, ◌∷◌, Option, none, some,
  Bytes, length, drop, if◌then◌else◌,
}
use netevent.Packet.{
  InputEvent, event_packet, packet_size, packet_cmd, packet_id, command_code, device_event, to_host,
  IsValid,
}
use netevent.Packet.Laws.{event_packet_read}
use netevent.Daemon.Map.{HotkeyDef, find, hotkey_lt}
use netevent.Daemon.State.{Daemon, Env, done, bind-done, skip, wrote}
use netevent.Daemon.Events.{Run}
use netevent.Daemon.Hotkeys.{try_key, try_key-none}
use netevent.Daemon.Inputs.{forward, to_current, to_output, send}

-- The hotkey that an event would trigger.
abbrev pub key_of : ℕ → InputEvent → HotkeyDef
key_of id ev = record { device = id; type = ev.type; code = ev.code; value = ev.value }

-- Behind an event that is no hotkey.
forward_cold :
    (env : Env) (run : Run) (id : ℕ) (ev : InputEvent) (d : Daemon)
    → find hotkey_lt (key_of id ev) d.hotkeys ≡ none
    → forward env run id ev d ≡ to_current env run id ev d
unfolding forward
forward_cold env run id ev d hk =
    bind-done (try_key (key_of id ev))
      (λ (hot : Bool). if hot then skip else to_current env run id ev) d d false
      (try_key-none (key_of id ev) d hk)

send_taken :
    (env : Env) (run : Run) (fd id : ℕ) (ev : InputEvent) (d : Daemon)
    → env.write_ok d.calls fd (event_packet id ev) ≡ true
    → send env run fd id ev d
      ≡ done tt (record d { calls = suc d.calls; trace = wrote fd (event_packet id ev) ∷ d.trace })
unfolding send
send_taken env run fd id ev d ok = simp ok

to_current_open :
    (env : Env) (run : Run) (fd id : ℕ) (ev : InputEvent) (d : Daemon)
    → d.current_fd ≡ some fd
    → d.write ≡ true
    → to_current env run id ev d ≡ send env run fd id ev d
unfolding to_current
to_current_open env run fd id ev d hc hw =
    ap (λ (c : Option ℕ). to_output env run id ev c d.write d) hc
    ∙ ap (λ (on : Bool). to_output env run id ev (some fd) on d) hw

to_output_off :
    (env : Env) (run : Run) (id : ℕ) (ev : InputEvent) (d : Daemon) (c : Option ℕ)
    → to_output env run id ev c false d ≡ done tt d
unfolding to_output
to_output_off env run id ev d none = refl
to_output_off env run id ev d (some fd) = refl

to_current_shut :
    (env : Env) (run : Run) (id : ℕ) (ev : InputEvent) (d : Daemon)
    → (d.current_fd ≡ none) ⊎ (d.write ≡ false)
    → to_current env run id ev d ≡ done tt d
unfolding to_current
to_current_shut env run id ev d (inl hc) =
    ap (λ (c : Option ℕ). to_output env run id ev c d.write d) hc
to_current_shut env run id ev d (inr hw) =
    ap (λ (on : Bool). to_output env run id ev d.current_fd on d) hw
    ∙ to_output_off env run id ev d d.current_fd

-- An event that is no hotkey, while there is a current output and events are written to it, is
-- written there as one packet, if the output takes it, and nothing else changes. The receiver reads
-- in the packet the event command, the identifier of the device and the event.
pub forward_delivers :
    (env : Env) (run : Run) (id fd : ℕ) (ev : InputEvent) (d : Daemon)
    → id < 2 ^ 16
    → IsValid ev
    → find hotkey_lt (key_of id ev) d.hotkeys ≡ none
    → d.current_fd ≡ some fd
    → d.write ≡ true
    → env.write_ok d.calls fd (event_packet id ev) ≡ true
    → (packet : Bytes) × (forward env run id ev d
        ≡ done tt (record d { calls = suc d.calls; trace = wrote fd packet ∷ d.trace }))
      × (length packet ≡ packet_size)
      × (packet_cmd packet ≡ command_code device_event)
      × (packet_id packet ≡ id)
      × (to_host (drop 4 packet) ≡ ev)
forward_delivers env run id fd ev d hi hv hk hc hw ok =
    let (size, cmd, number, event) = event_packet_read id ev hi hv in
    (
      event_packet id ev,
      forward_cold env run id ev d hk
          ∙ to_current_open env run fd id ev d hc hw
          ∙ send_taken env run fd id ev d ok,
      size,
      cmd,
      number,
      event,
    )

-- An event that triggers nothing is dropped without any change when there is no current output or
-- events are not written.
pub forward_drops :
    (env : Env) (run : Run) (id : ℕ) (ev : InputEvent) (d : Daemon)
    → find hotkey_lt (key_of id ev) d.hotkeys ≡ none
    → (d.current_fd ≡ none) ⊎ (d.write ≡ false)
    → forward env run id ev d ≡ done tt d
forward_drops env run id ev d hk shut =
    forward_cold env run id ev d hk ∙ to_current_shut env run id ev d shut
