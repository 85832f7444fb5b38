-- ===== src/Daemon/Valid/Keeps/Inputs.antt =====
-- The functions on the input devices keep the state valid.
use netevent.Prelude.{
  ℕ, ◌≡◌, ap, sym, subst, ◌∙◌, inl, inr, Bool, true, not, List, [], ◌∷◌, Option, none, some, Bytes,
  Option-cases, codes,
}
use netevent.Packet.{InputEvent, event_packet}
use netevent.Daemon.Map.{Map, find, erase, string_lt}
use netevent.Daemon.State.{
  Daemon, Env, Input, M, Outcome, done, thrown, out_of_fuel, pure, throw, ◌>>=◌, ◌>>◌, skip, get,
  modify, when, device_exists, EventRead, got, at_end, read_error, event_unreadable,
}
use netevent.Daemon.Queue.{announce_device_removal, cleanup_device_hotkeys}
use netevent.Daemon.Events.{Run}
use netevent.Daemon.Inputs.{
  input_at, at_eof, finish_device_removal, write_all, announce_device, announce_to_all,
  announce_all_devices, add_device, read_device, send, to_output, to_current, forward,
  read_from_device, lose_device,
}
use netevent.Daemon.Ids.{announce-Quiet}
use netevent.Daemon.Valid.{IsValid, registry}
use netevent.Daemon.Valid.Orders.{erase-Ascending}
use netevent.Daemon.Valid.Registry.{registry-erase, registry-at_eof}
use netevent.Daemon.Valid.Entries.{
  AllFit-erase, Listed-erase, input_at-find, without_device-HotkeysFit,
}
use netevent.Daemon.Valid.Keeps.{
  Valid, Keeps, Keeps-bind, Keeps-get, Keeps-if, Keeps-when, Keeps-pure, Keeps-next_call,
  Keeps-effect, Keeps-then, Keeps-catch, bind-Valid, keeps_rules,
}
use netevent.Daemon.Valid.Keeps.Queue.{
  remove_fd-Keeps, add_fd-Keeps, set_callback-Keeps, announce_device_removal-Keeps,
}
use netevent.Daemon.Valid.Keeps.Events.{
  try_hotkey-Keeps, fire_event-Keeps, lost_current_output-Keeps,
}
use netevent.Daemon.Valid.Keeps.Ids.{
  close_device-Keeps, free_input_id-Keeps, inserted-Keeps, next_id-Keeps,
}

module _ (env : Env) where
  write_all-Keeps :
      (fd : ℕ) (bs : List Bytes) (finished : Bool) → Keeps (write_all env fd bs finished)
  unfolding write_all
  write_all-Keeps fd [] finished = search keeps_rules
  write_all-Keeps fd (b ∷ bs) finished = search (keeps_rules, write_all-Keeps fd bs) depth 40

  announce_device-Keeps : (input : Input) (fd : ℕ) → Keeps (announce_device env input fd)
  unfolding announce_device
  announce_device-Keeps input fd = search (keeps_rules, write_all-Keeps, remove_fd-Keeps) depth 60

  pub announce_to_all-Keeps :
      (input : Input) (outputs : List (Bytes × ℕ)) → Keeps (announce_to_all env input outputs)
  unfolding announce_to_all
  announce_to_all-Keeps input [] = search keeps_rules
  announce_to_all-Keeps input ((name, fd) ∷ outputs) =
      Keeps-bind (announce_device env input fd) _ (announce_device-Keeps input fd)
        (λ a. announce_to_all-Keeps input outputs)

  pub announce_all_devices-Keeps :
      (fd : ℕ) (inputs : List (Bytes × Input)) → Keeps (announce_all_devices env fd inputs)
  unfolding announce_all_devices
  announce_all_devices-Keeps fd [] = search keeps_rules
  announce_all_devices-Keeps fd ((name, input) ∷ inputs) =
      Keeps-bind (announce_device env input fd) _ (announce_device-Keeps input fd) (λ a.
        Keeps-when a (announce_all_devices env fd inputs) (announce_all_devices-Keeps fd inputs))

  fresh-Keeps :
      (name : Bytes) (o : Option Input)
      → Keeps (elim o [ none ↦ skip | some _ ↦ throw (device_exists name) ])
  fresh-Keeps name none = search keeps_rules
  fresh-Keeps name (some i) = search keeps_rules

  pub add_device-Keeps : (name path : Bytes) → Keeps (add_device env name path)
  unfolding add_device
  add_device-Keeps name path = Keeps-bind get _ Keeps-get (λ d.
      Keeps-bind _ _ (fresh-Keeps name (find string_lt name d.inputs)) (λ u.
        next_id-Keeps _ (λ id h.
          search
            (
              keeps_rules, announce_to_all-Keeps, add_fd-Keeps, set_callback-Keeps, inserted-Keeps,
              free_input_id-Keeps, h,
            )
            depth 80)))

  eof-Keeps : (fd : ℕ) → Keeps (modify (λ d. record d { inputs = at_eof fd d.inputs }))
  eof-Keeps fd = record {
    at = λ d v.
        let same : registry (at_eof fd d.inputs) ≡ registry d.inputs =
          registry-at_eof fd d.inputs in
        record {
          removed_once = v.removed_once;
          in_order = rw same v.in_order;
          ids_fit = rw same v.ids_fit;
          free_fit = v.free_fit;
          hotkeys_fit = rw same v.hotkeys_fit;
        };
  }

  abbrev state_of : Outcome (Unit {0}) → Daemon → Daemon
  state_of (done a e) d = e
  state_of (thrown x e) d = d
  state_of out_of_fuel d = d

  -- The end of a device: its hotkeys go with it.
  removed-IsValid :
      (fd : ℕ) (name : Bytes) (input : Input) (d : Daemon)
      → input_at fd d.inputs ≡ some (name, input)
      → IsValid d
      → Valid (
          (cleanup_device_hotkeys input.id
              >> modify (λ d. record d { inputs = erase string_lt name d.inputs }))
            d)
  unfolding cleanup_device_hotkeys
  removed-IsValid fd name input d h v =
      let ids : Map Bytes ℕ = registry d.inputs in
      let found : find string_lt name ids ≡ some input.id =
        input_at-find fd name input d.inputs v.in_order h in
      record {
        removed_once = v.removed_once;
        in_order = rw (registry-erase name d.inputs) (erase-Ascending name ids v.in_order);
        ids_fit = rw (registry-erase name d.inputs) (AllFit-erase name ids v.ids_fit);
        free_fit = v.free_fit;
        hotkeys_fit = rw (registry-erase name d.inputs) (
            without_device-HotkeysFit input.id ids (erase string_lt name ids) d.hotkeys
              (λ i n l. Listed-erase i input.id name ids found n l) v.hotkeys_fit);
      }

  pub finish_device_removal-Keeps : (fd : ℕ) → Keeps (finish_device_removal env fd)
  finish_device_removal-Keeps fd = record {
    at = λ d v. elim (Option-cases (input_at fd d.inputs)) [
      | inl e ↦ unfold finish_device_removal in rw e v
      | inr ((name, input), e) ↦
          let m : M (Unit {0}) =
            when (not input.device.persistent) (announce_device_removal env input) in
          let q = announce-Quiet env input d in
          unfold finish_device_removal in
          rw e (
            bind-Valid (done q.value q.after) m _ d q.returns
              (subst Valid q.returns (
                (Keeps-when (not input.device.persistent) (announce_device_removal env input)
                    (announce_device_removal-Keeps env input)).at
                  d v))
              (λ a e' r u.
                let here : e' ≡ q.after =
                  ap (λ (o : Outcome (Unit {0})). state_of o d) (sym r ∙ q.returns) in
                removed-IsValid fd name input e'
                  (ap (λ (x : Daemon). input_at fd x.inputs) here
                    ∙ ap (input_at fd) q.same_inputs
                    ∙ e)
                  u))
    ];
  }

  answer-Keeps :
      (fd : ℕ) (r : EventRead)
      → Keeps {A = Bool × InputEvent} (elim r [
        | read_error ↦ throw event_unreadable
        | at_end ↦ modify (λ d. record d { inputs = at_eof fd d.inputs }) >> throw event_unreadable
        | got ev ↦ get >>= λ d.
            pure (elim (input_at fd d.inputs) [ none ↦ true | some (_, i) ↦ not i.device.eof ], ev)
      ])
  answer-Keeps fd read_error = search keeps_rules
  answer-Keeps fd at_end = search (keeps_rules, eof-Keeps) depth 40
  answer-Keeps fd (got ev) = search keeps_rules depth 40

  pub read_device-Keeps : (fd : ℕ) → Keeps (read_device env fd)
  unfolding read_device
  read_device-Keeps fd = Keeps-bind _ _ Keeps-next_call (λ n. answer-Keeps fd (env.read_event n fd))

module _ (env : Env) (run : Run) (run-Keeps : (c : Option ℕ) (t : Bytes) → Keeps (run c t)) where
  send-Keeps : (fd id : ℕ) (ev : InputEvent) → Keeps (send env run fd id ev)
  unfolding send
  send-Keeps fd id ev = Keeps-bind _ _ Keeps-next_call (λ n.
      Keeps-if (env.write_ok n fd (event_packet id ev)) _ _ (Keeps-effect _)
        (Keeps-then _ _ (remove_fd-Keeps fd) (lost_current_output-Keeps env run run-Keeps)))

  to_output-Keeps :
      (id : ℕ) (ev : InputEvent) (o : Option ℕ) (on : Bool) → Keeps (to_output env run id ev o on)
  unfolding to_output
  to_output-Keeps id ev none on = search keeps_rules
  to_output-Keeps id ev (some fd) on = search (keeps_rules, send-Keeps) depth 40

  to_current-Keeps : (id : ℕ) (ev : InputEvent) → Keeps (to_current env run id ev)
  unfolding to_current
  to_current-Keeps id ev = record {
    at = λ d v. (to_output-Keeps id ev d.current_fd d.write).at d v;
  }

  forward-Keeps : (id : ℕ) (ev : InputEvent) → Keeps (forward env run id ev)
  unfolding forward
  forward-Keeps id ev = search (keeps_rules, try_hotkey-Keeps, to_current-Keeps) depth 60

  forwarded-Keeps :
      (id : ℕ) (o : Option InputEvent)
      → Keeps (elim o [ none ↦ skip | some ev ↦ forward env run id ev ])
  forwarded-Keeps id none = search keeps_rules
  forwarded-Keeps id (some ev) = forward-Keeps id ev

  pub lose_device-Keeps : (fd : ℕ) → Keeps (lose_device env run fd)
  unfolding lose_device
  lose_device-Keeps fd =
      search (keeps_rules, fire_event-Keeps env run run-Keeps, close_device-Keeps) depth 40

  pub read_from_device-Keeps : (fd id : ℕ) → Keeps (read_from_device env run fd id)
  unfolding read_from_device
  read_from_device-Keeps fd id =
      Keeps-bind _ _
        (Keeps-catch _ _
          (Keeps-bind _ _ (read_device-Keeps env fd) (λ p.
            Keeps-if p.0 _ _ (Keeps-pure (some p.1)) (
              Keeps-then _ _
                (Keeps-then _ _ (fire_event-Keeps env run run-Keeps none (codes "device-lost"))
                  (close_device-Keeps fd))
                (Keeps-pure none))))
          (λ e. Keeps-then _ _ (close_device-Keeps fd) (Keeps-pure none)))
        (λ o. forwarded-Keeps id o)
