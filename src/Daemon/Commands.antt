-- ===== src/Daemon/Commands.antt =====
-- The handlers of the commands (daemon.cpp, `writeCommand` to `sourceCommandFile`). An exception's
-- text is reduced to its kind.
pub mod Device
pub mod Hotkey
pub mod Info
pub mod Dispatch
use netevent.Prelude.{
  ℕ, Bool, true, false, not, List, [], ◌∷◌, ◌++◌, Option, none, some, Bytes, ◌==◌, if◌then◌else◌,
  codes, str_eq,
}
use netevent.Text.Number.{parse_bool, case_eq, join}
use netevent.Text.Lexer.{c_string}
use netevent.Daemon.Map.{Map, find, assign, erase, string_lt}
use netevent.Daemon.State.{
  Daemon, Env, M, Error, Reply, Outcome, done, thrown, out_of_fuel, throw, ◌>>=◌, ◌>>◌, skip, get,
  modify, when, require, some_or, effect, next_call, ran, missing_subcommand, usage,
  unknown_subcommand, missing_action, missing_command, unknown_write_state, unknown_grab_state,
  fork_failed, action_removed, action_replaced, action_added, removing_output, using_output,
}
use netevent.Daemon.Queue.{to_client, remove_output}
use netevent.Daemon.Events.{Run, write_events, grab, use_output}
use netevent.Daemon.Outputs.{add_output}

module _ (env : Env) (run : Run) where
  -- `writeCommand`
  unfoldable pub write_command : Option ℕ → Bytes → M (Unit {0})
  unfolding write_events
  write_command client state = do
    on ← elim (parse_bool state) [
      | some b ↦ λ d. done b d
      | none ↦
          if case_eq state (codes "toggle")
          then (λ d. done (not d.write) d)
          else throw (unknown_write_state state)
    ]
    write_events env run client on

  -- `grabCommand`
  unfoldable pub grab_command : Option ℕ → Bytes → M (Unit {0})
  unfolding grab
  grab_command client state = do
    on ← elim (parse_bool state) [
      | some b ↦ λ d. done b d
      | none ↦
          if case_eq state (codes "toggle")
          then (λ d. done (not d.grab) d)
          else throw (unknown_grab_state state)
    ]
    grab env run client on

  -- `clientCommand_Output`, with the arguments behind `output`.
  unfoldable pub output_command : Option ℕ → List Bytes → M (Unit {0})
  unfolding use_output add_output remove_output
  output_command client [] = throw missing_subcommand
  output_command client (sub ∷ args) =
      if str_eq sub (codes "add")
      then add_output env client args
      else if str_eq sub (codes "remove")
      then elim args [
        | name ∷ [] ↦ remove_output name >> to_client env client (removing_output name)
        | _ ↦ throw usage
      ]
      else if str_eq sub (codes "use")
      then elim args [
        | name ∷ [] ↦
            use_output env run client name
            >> (get >>= λ d. to_client env client (using_output d.current_name))
        | _ ↦ throw usage
      ]
      else throw unknown_subcommand

module _ (env : Env) where
  -- `shellCommand`
  unfoldable pub shell_command : Bytes → Bool → M (Unit {0})
  shell_command command background = do
    n ← next_call
    require (env.fork_ok n command) fork_failed
    effect (ran command background)

  -- `clientCommand_Action`, with the arguments behind `action`.
  unfoldable pub action_command : Option ℕ → List Bytes → M (Unit {0})
  action_command client [] = throw missing_subcommand
  action_command client (sub ∷ []) = throw missing_action
  action_command client (sub ∷ action ∷ args) =
      if str_eq sub (codes "remove")
      then elim args [
        | [] ↦ get >>= λ d. elim (find string_lt action d.event_commands) [
          | none ↦ skip
          | some _ ↦
              modify (λ d. record d { event_commands = erase string_lt action d.event_commands })
              >> to_client env client (action_removed action)
        ]
        | _ ∷ _ ↦ throw usage
      ]
      else if str_eq sub (codes "set")
      then elim args [
        | [] ↦ throw missing_command
        | piece ∷ pieces ↦ get >>= λ d.
            to_client env client (elim (find string_lt action d.event_commands) [
              | some _ ↦ action_replaced action
              | none ↦ action_added action
            ])
            >> modify (λ d. record d {
              event_commands =
                  assign string_lt action (join b' ' (piece ∷ pieces)) d.event_commands;
            })
      ]
      else throw unknown_subcommand
