-- ===== src/Daemon/Valid/Keeps/Outputs.antt =====
-- The commands of hotkeys, outputs and actions keep the state valid.
use netevent.Prelude.{
  ℕ, refl, Bool, not, List, [], ◌∷◌, Option, none, some, Bytes, codes, str_eq, if◌then◌else◌,
}
use netevent.Text.Number.{parse_bool, join, case_eq}
use netevent.Text.Lexer.{c_string}
use netevent.Daemon.Map.{find, erase, string_lt}
use netevent.Daemon.State.{
  Env, done, throw, ◌>>=◌, ◌>>◌, skip, get, modify, added_hotkey, removed_hotkey, usage,
  unknown_subcommand, output_exists, unknown_write_state, unknown_grab_state, removing_output,
  using_output, missing_command, action_removed,
}
use netevent.Daemon.Queue.{to_client, remove_output}
use netevent.Daemon.Events.{Run, use_output}
use netevent.Daemon.Outputs.{
  is_current, finish_output_removal, add_output_finish, add_output_named, add_output_args,
  add_output,
}
use netevent.Daemon.Commands.{
  write_command, grab_command, output_command, shell_command, action_command,
}
use netevent.Daemon.Commands.Hotkey.{add_hotkey, remove_hotkey, read_hotkey, hotkey_command}
use netevent.Daemon.Valid.Keeps.{
  Keeps, Keeps-bind, Keeps-then, Keeps-get, Keeps-if, Keeps-when, Keeps-pure, Keeps-throw,
  bind-Valid, keeps_rules,
}
use netevent.Daemon.Valid.Keeps.Queue.{to_client-Keeps, remove_output-Keeps}
use netevent.Daemon.Valid.Keeps.Events.{
  write_events-Keeps, grab-Keeps, use_output-Keeps, lost_current_output-Keeps,
}
use netevent.Daemon.Valid.Keeps.Inputs.{announce_all_devices-Keeps}
use netevent.Daemon.Valid.Keeps.Commands.{one-Keeps}
use netevent.Daemon.Valid.Keeps.Hotkeys.{add_hotkey-Valid, remove_hotkey-Keeps, read_hotkey-Keeps}

module _ (env : Env) (client : Option ℕ) where
  added_hotkey-Keeps :
      (args : List Bytes)
      → Keeps {A = Unit {0}} (elim args [
        | device ∷ text ∷ piece ∷ pieces ↦ read_hotkey device text >>= λ def.
            add_hotkey def (c_string (join b' ' (piece ∷ pieces)))
            >> to_client env client (added_hotkey def)
        | _ ↦ throw usage
      ])
  added_hotkey-Keeps [] = search keeps_rules
  added_hotkey-Keeps (a ∷ []) = search keeps_rules
  added_hotkey-Keeps (a ∷ b ∷ []) = search keeps_rules
  added_hotkey-Keeps (device ∷ text ∷ piece ∷ pieces) =
      read_hotkey-Keeps device text _ (λ def d l v.
        let command : Bytes = c_string (join b' ' (piece ∷ pieces)) in
        bind-Valid (add_hotkey def command d) (add_hotkey def command) _ d refl
          (add_hotkey-Valid def command d l v)
          (λ a e q u. (to_client-Keeps env client (added_hotkey def)).at e u))

  removed_hotkey-Keeps :
      (args : List Bytes)
      → Keeps {A = Unit {0}} (elim args [
        | device ∷ text ∷ [] ↦ read_hotkey device text >>= λ def.
            remove_hotkey def >> to_client env client (removed_hotkey def)
        | _ ↦ throw usage
      ])
  removed_hotkey-Keeps [] = search keeps_rules
  removed_hotkey-Keeps (a ∷ []) = search keeps_rules
  removed_hotkey-Keeps (device ∷ text ∷ []) = read_hotkey-Keeps device text _ (λ def d l v.
      (Keeps-then _ _ (remove_hotkey-Keeps def)
          (to_client-Keeps env client (removed_hotkey def))).at
        d v)
  removed_hotkey-Keeps (a ∷ b ∷ x ∷ xs) = search keeps_rules

  pub hotkey_command-Keeps : (args : List Bytes) → Keeps (hotkey_command env client args)
  unfolding hotkey_command
  hotkey_command-Keeps [] = search keeps_rules
  hotkey_command-Keeps (sub ∷ args) =
      Keeps-if (str_eq sub (codes "add")) _ _ (added_hotkey-Keeps args) (
        Keeps-if (str_eq sub (codes "remove")) _ _ (removed_hotkey-Keeps args)
          (Keeps-throw unknown_subcommand))

  add_output_finish-Keeps :
      (name : Bytes) (fd : ℕ) (skip_announce : Bool)
      → Keeps (add_output_finish env name fd skip_announce)
  unfolding add_output_finish
  add_output_finish-Keeps name fd skip_announce =
      search (keeps_rules, announce_all_devices-Keeps) depth 80

  taken-Keeps :
      (name : Bytes) (o : Option ℕ)
      → Keeps (elim o [ none ↦ skip | some _ ↦ throw (output_exists name) ])
  taken-Keeps name none = search keeps_rules
  taken-Keeps name (some fd) = search keeps_rules

  add_output_named-Keeps :
      (name path : Bytes) (skip_announce : Bool)
      → Keeps (add_output_named env name path skip_announce)
  unfolding add_output_named
  add_output_named-Keeps name path skip_announce = Keeps-bind get _ Keeps-get (λ d.
      Keeps-bind _ _ (taken-Keeps name (find string_lt name d.outputs))
        (λ u. search (keeps_rules, add_output_finish-Keeps) depth 60))

  add_output_args-Keeps :
      (skip_announce : Bool) (args : List Bytes)
      → Keeps (add_output_args env client skip_announce args)
  unfolding add_output_args
  add_output_args-Keeps skip_announce [] = search keeps_rules
  add_output_args-Keeps skip_announce (name ∷ []) = search keeps_rules
  add_output_args-Keeps skip_announce (name ∷ piece ∷ pieces) =
      search (keeps_rules, add_output_named-Keeps, to_client-Keeps) depth 40

  pub add_output-Keeps : (args : List Bytes) → Keeps (add_output env client args)
  unfolding add_output
  add_output-Keeps [] = search keeps_rules
  add_output-Keeps (arg ∷ args) = search (keeps_rules, add_output_args-Keeps) depth 40

  -- `clientCommand_Action`
  erased_action-Keeps :
      (action : Bytes) (o : Option Bytes)
      → Keeps {A = Unit {0}} (elim o [
        | none ↦ skip
        | some _ ↦
            modify (λ d. record d { event_commands = erase string_lt action d.event_commands })
            >> to_client env client (action_removed action)
      ])
  erased_action-Keeps action none = search keeps_rules
  erased_action-Keeps action (some c) = search (keeps_rules, to_client-Keeps) depth 40

  pub action_command-Keeps : (args : List Bytes) → Keeps (action_command env client args)
  unfolding action_command
  action_command-Keeps [] = search keeps_rules
  action_command-Keeps (sub ∷ []) = search keeps_rules
  action_command-Keeps (sub ∷ action ∷ []) =
      Keeps-if (str_eq sub (codes "remove")) _ _
        (Keeps-bind get _ Keeps-get
          (λ d. erased_action-Keeps action (find string_lt action d.event_commands)))
        (Keeps-if (str_eq sub (codes "set")) _ _ (Keeps-throw missing_command)
          (Keeps-throw unknown_subcommand))
  action_command-Keeps (sub ∷ action ∷ piece ∷ pieces) =
      Keeps-if (str_eq sub (codes "remove")) _ _ (Keeps-throw usage) (
        Keeps-if (str_eq sub (codes "set")) _ _ (search (keeps_rules, to_client-Keeps) depth 60)
          (Keeps-throw unknown_subcommand))

-- `shellCommand`
pub shell_command-Keeps :
    (env : Env) (command : Bytes) (background : Bool) → Keeps (shell_command env command background)
unfolding shell_command
shell_command-Keeps env command background = search keeps_rules depth 40

module _ (env : Env) (run : Run) (run-Keeps : (c : Option ℕ) (t : Bytes) → Keeps (run c t)) where
  written-Keeps :
      (state : Bytes) (o : Option Bool)
      → Keeps {A = Bool} (elim o [
        | some b ↦ λ d. done b d
        | none ↦
            if case_eq state (codes "toggle")
            then (λ d. done (not d.write) d)
            else throw (unknown_write_state state)
      ])
  written-Keeps state (some b) = Keeps-pure b
  written-Keeps state none =
      Keeps-if (case_eq state (codes "toggle")) _ _ (record { at = λ d v. v }) (Keeps-throw _)

  pub write_command-Keeps :
      (client : Option ℕ) (state : Bytes) → Keeps (write_command env run client state)
  unfolding write_command
  write_command-Keeps client state =
      Keeps-bind _ _ (written-Keeps state (parse_bool state))
        (λ on. write_events-Keeps env run run-Keeps client on)

  grabbed-Keeps :
      (state : Bytes) (o : Option Bool)
      → Keeps {A = Bool} (elim o [
        | some b ↦ λ d. done b d
        | none ↦
            if case_eq state (codes "toggle")
            then (λ d. done (not d.grab) d)
            else throw (unknown_grab_state state)
      ])
  grabbed-Keeps state (some b) = Keeps-pure b
  grabbed-Keeps state none =
      Keeps-if (case_eq state (codes "toggle")) _ _ (record { at = λ d v. v }) (Keeps-throw _)

  pub grab_command-Keeps :
      (client : Option ℕ) (state : Bytes) → Keeps (grab_command env run client state)
  unfolding grab_command
  grab_command-Keeps client state =
      Keeps-bind _ _ (grabbed-Keeps state (parse_bool state))
        (λ on. grab-Keeps env run run-Keeps client on)

  pub output_command-Keeps :
      (client : Option ℕ) (args : List Bytes) → Keeps (output_command env run client args)
  unfolding output_command
  output_command-Keeps client [] = search keeps_rules
  output_command-Keeps client (sub ∷ args) =
      Keeps-if (str_eq sub (codes "add")) _ _ (add_output-Keeps env client args) (
        Keeps-if (str_eq sub (codes "remove")) _ _
          (one-Keeps (λ name. remove_output name >> to_client env client (removing_output name))
            args (λ name. Keeps-then _ _ (remove_output-Keeps name) (to_client-Keeps env client _)))
          (Keeps-if (str_eq sub (codes "use")) _ _
            (one-Keeps
              (λ name.
                use_output env run client name
                >> (get >>= λ d. to_client env client (using_output d.current_name)))
              args
              (λ name.
                Keeps-then _ _ (use_output-Keeps env run run-Keeps client name)
                  (Keeps-bind get _ Keeps-get (λ d. to_client-Keeps env client _))))
            (Keeps-throw unknown_subcommand)))

  pub finish_output_removal-Keeps : (fd : ℕ) → Keeps (finish_output_removal env run fd)
  unfolding finish_output_removal
  finish_output_removal-Keeps fd = Keeps-bind get _ Keeps-get (λ d.
      Keeps-then _ _ (Keeps-when (is_current d fd) _ (lost_current_output-Keeps env run run-Keeps))
        (search keeps_rules depth 60))
