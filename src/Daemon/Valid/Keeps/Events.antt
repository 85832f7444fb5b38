-- ===== src/Daemon/Valid/Keeps/Events.antt =====
-- The switches and the actions of events keep the state valid.
use netevent.Prelude.{
  ℕ, suc, ◌≡◌, refl, ap, Bool, true, false, [], ◌∷◌, Option, none, some, Bytes, length,
  if◌then◌else◌, ◌+◌, leb,
}
use netevent.Text.Event.{ev_cnt}
use netevent.Device.In.{InDevice}
use netevent.Daemon.Map.{Map, find, string_lt, hotkey_lt}
use netevent.Daemon.State.{Env, Input, done, pure, ◌>>◌, skip, get}
use netevent.Daemon.Queue.{queue_command}
use netevent.Daemon.Events.{
  Run, try_hotkey, grab_inputs, fire_event, use_output, write_events, grab, lost_current_output,
}
use netevent.Daemon.Valid.{registry}
use netevent.Daemon.Valid.Keeps.{Keeps, Keeps-bind, Keeps-get, Keeps-pure, Keeps-if, keeps_rules}
use netevent.Daemon.Valid.Keeps.Queue.{queue_command-Keeps}

hotkey-Keeps :
    (o : Option Bytes)
    → Keeps (elim o [ none ↦ pure false | some c ↦ queue_command none c >> pure true ])
hotkey-Keeps none = search keeps_rules
hotkey-Keeps (some c) = search (keeps_rules, queue_command-Keeps) depth 40

pub try_hotkey-Keeps : (device type code value : ℕ) → Keeps (try_hotkey device type code value)
unfolding try_hotkey
try_hotkey-Keeps device type code value = Keeps-bind get _ Keeps-get (λ d.
    Keeps-if (leb ev_cnt type) (pure false) _ (Keeps-pure false) (
      hotkey-Keeps (
        find hotkey_lt (record { device = device; type = type; code = code; value = value })
          d.hotkeys)))

-- The devices that are grabbed stay under their names and identifiers.
pair_registry :
    (fine : Bool) (name : Bytes) (input : Input) (dev : InDevice) (m : Map Bytes Input)
    (rest : Map Bytes Input × Bool)
    → registry rest.0 ≡ registry m
    → let r : Map Bytes Input × Bool =
        if fine
        then ((name, record input { device = dev }) ∷ rest.0, rest.1)
        else ((name, input) ∷ m, false) in
      registry r.0 ≡ registry ((name, input) ∷ m)
pair_registry true name input dev m rest h = ap (◌∷◌ (name, input.id)) h
pair_registry false name input dev m rest h = refl

registry-grab_inputs :
    (env : Env) (on : Bool) (m : Map Bytes Input) (n : ℕ)
    → registry (grab_inputs env on m n).0 ≡ registry m
unfolding grab_inputs
registry-grab_inputs env on [] n = refl
registry-grab_inputs env on ((name, input) ∷ m) n =
    pair_registry _ name input _ m _ (registry-grab_inputs env on m (suc n))

grabbing-Keeps :
    (env : Env) (on : Bool)
    → Keeps (λ d.
      (let (inputs, fine) = grab_inputs env on d.inputs d.calls in
        done fine (record d { inputs = inputs; calls = d.calls + length d.inputs })))
grabbing-Keeps env on = record {
  at = λ d v.
      let same : registry (grab_inputs env on d.inputs d.calls).0 ≡ registry d.inputs =
        registry-grab_inputs env on d.inputs d.calls in
      record {
        removed_once = v.removed_once;
        in_order = rw same v.in_order;
        ids_fit = rw same v.ids_fit;
        free_fit = v.free_fit;
        hotkeys_fit = rw same v.hotkeys_fit;
      };
}

module _ (env : Env) (run : Run) (run-Keeps : (c : Option ℕ) (t : Bytes) → Keeps (run c t)) where
  action-Keeps :
      (client : Option ℕ) (o : Option Bytes)
      → Keeps (elim o [ none ↦ skip | some command ↦ run client command ])
  action-Keeps client none = search keeps_rules
  action-Keeps client (some command) = run-Keeps client command

  pub fire_event-Keeps :
      (client : Option ℕ) (event : Bytes) → Keeps (fire_event env run client event)
  unfolding fire_event
  fire_event-Keeps client event =
      Keeps-bind get _ Keeps-get (λ d. action-Keeps client (find string_lt event d.event_commands))

  pub use_output-Keeps : (client : Option ℕ) (name : Bytes) → Keeps (use_output env run client name)
  unfolding use_output
  use_output-Keeps client name = search (keeps_rules, fire_event-Keeps) depth 60

  pub write_events-Keeps : (client : Option ℕ) (on : Bool) → Keeps (write_events env run client on)
  unfolding write_events
  write_events-Keeps client on = search (keeps_rules, fire_event-Keeps) depth 60

  pub grab-Keeps : (client : Option ℕ) (on : Bool) → Keeps (grab env run client on)
  unfolding grab
  grab-Keeps client on = search (keeps_rules, grabbing-Keeps, fire_event-Keeps) depth 60

  pub lost_current_output-Keeps : Keeps (lost_current_output env run)
  unfolding lost_current_output
  lost_current_output-Keeps = search (keeps_rules, write_events-Keeps, grab-Keeps) depth 60
