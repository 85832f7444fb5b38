-- ===== src/Daemon/Commands/Dispatch.antt =====
-- `clientCommand`, `parseClientCommand` and `sourceCommandFile` (daemon.cpp). A command can run an
-- event's action or a file, and these are texts of commands again, without a bound in the program:
-- the fuel is the depth of that nesting.
use netevent.Prelude.{
  ℕ, zero, suc, Bool, true, false, not, ◌&&◌, ◌||◌, List, [], ◌∷◌, Option, none, some, Bytes, leb,
  ◌==◌, if◌then◌else◌, codes, str_eq,
}
use netevent.Text.Number.{join}
use netevent.Text.Lexer.{c_string, parse_client_command}
use netevent.Daemon.State.{
  Env, M, out_of_fuel, throw, ◌>>=◌, ◌>>◌, skip, modify, some_or, next_call, require, usage,
  unknown_command, source_failed, grab_deprecated, ok_reply,
}
use netevent.Daemon.Queue.{to_client}
use netevent.Daemon.Events.{Run, use_output}
use netevent.Daemon.Commands.{
  write_command, grab_command, output_command, shell_command, action_command,
}
use netevent.Daemon.Commands.Device.{device_command}
use netevent.Daemon.Commands.Info.{info_command}
use netevent.Daemon.Commands.Hotkey.{hotkey_command}

-- `isspace`
unfoldable pub is_space : ℕ → Bool
is_space c = c == 32 || leb 9 c && leb c 13

unfoldable pub skip_space : Bytes → Bytes
unfolding is_space
skip_space [] = []
skip_space (c ∷ s) = if is_space c then skip_space s else c ∷ s

-- `line[--length] = 0`: the last character of a line goes, whatever it is.
unfoldable pub cut_last : Bytes → Bytes
cut_last [] = []
cut_last (c ∷ []) = []
cut_last (c ∷ d ∷ s) = c ∷ cut_last (d ∷ s)

-- What a line of a file of commands has to run: nothing if it is empty or a comment.
unfoldable pub source_line : Bytes → Option Bytes
unfolding c_string cut_last skip_space
source_line line = elim (skip_space (c_string (cut_last line))) [
  | [] ↦ none
  | c ∷ s ↦ if c == b'#' then none else some (c ∷ s)
]

module _ (env : Env) (run : Run) where
  -- The loop of `sourceCommandFile`.
  unfoldable pub source_lines : Option ℕ → List Bytes → M (Unit {0})
  source_lines client [] = skip
  source_lines client (line ∷ lines) = elim (source_line line) [
    | none ↦ source_lines client lines
    | some text ↦ run client text >> source_lines client lines
  ]

  -- `sourceCommandFile`
  unfoldable pub source_command_file : Option ℕ → Bytes → M (Unit {0})
  unfolding source_lines
  source_command_file client path = do
    n ← next_call
    (lines, failed) ← some_or (env.read_file n path) (source_failed path)
    source_lines client lines
    require (not failed) (source_failed path)

  -- The one argument of a command that has no subcommands.
  abbrev pub one_argument : List Bytes → (Bytes → M (Unit {0})) → M (Unit {0})
  one_argument (arg ∷ []) k = k arg
  one_argument _ k = throw usage

  -- The deprecated `grab`.
  unfoldable pub grab_and_write : Option ℕ → Bytes → M (Unit {0})
  unfolding grab_command write_command
  grab_and_write client state = do
    grab_command env run client state
    write_command env run client state
    to_client env client grab_deprecated

  -- `exec` and `exec&`
  unfoldable pub exec_command : Bool → List Bytes → M (Unit {0})
  unfolding shell_command
  exec_command background [] = throw usage
  exec_command background (piece ∷ pieces) =
      shell_command env (c_string (join b' ' (piece ∷ pieces))) background

  -- The branches of `clientCommand`.
  unfoldable pub branch : Option ℕ → Bytes → List Bytes → M (Unit {0})
  branch client name args =
      if str_eq name (codes "nop")
      then skip
      else if str_eq name (codes "device")
      then device_command env client args
      else if str_eq name (codes "output")
      then output_command env run client args
      else if str_eq name (codes "hotkey")
      then hotkey_command env client args
      else if str_eq name (codes "action")
      then action_command env client args
      else if str_eq name (codes "info")
      then info_command env client
      else if str_eq name (codes "write-events")
      then one_argument args (λ arg. write_command env run client (c_string arg))
      else if str_eq name (codes "grab-devices")
      then one_argument args (λ arg. grab_command env run client (c_string arg))
      else if str_eq name (codes "grab")
      then one_argument args (λ arg. grab_and_write client (c_string arg))
      else if str_eq name (codes "use")
      then one_argument args (λ arg. use_output env run client arg)
      else if str_eq name (codes "exec")
      then exec_command false args
      else if str_eq name (codes "exec&")
      then exec_command true args
      else if str_eq name (codes "source")
      then one_argument args (λ arg. source_command_file client (c_string arg))
      else if str_eq name (codes "quit")
      then modify (λ d. record d { quit = true })
      else throw (unknown_command name)

  -- `clientCommand`; a client is told that its command is done.
  unfoldable pub client_command : Option ℕ → List Bytes → M (Unit {0})
  unfolding branch
  client_command client [] = skip
  client_command client (name ∷ args) =
      branch client name args
      >> elim client [ none ↦ skip | some fd ↦ to_client env (some fd) ok_reply ]

  -- The commands of a text in their order.
  unfoldable pub client_commands : Option ℕ → List (List Bytes) → M (Unit {0})
  unfolding client_command
  client_commands client [] = skip
  client_commands client (args ∷ rest) = client_command client args >> client_commands client rest

-- `parseClientCommand`
unfoldable pub run_text : Env → ℕ → Run
unfolding c_string parse_client_command client_commands
run_text env zero client text = λ d. out_of_fuel
run_text env (suc n) client text =
    client_commands env (run_text env n) client (parse_client_command (c_string text))
