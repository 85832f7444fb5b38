-- ===== src/Daemon/Valid/Keeps/Run.antt =====
-- The commands of a text, whatever their depth, keep the state valid.
use netevent.Prelude.{
  ℕ, zero, suc, Bool, true, false, List, [], ◌∷◌, Option, none, some, Bytes, codes, str_eq,
}
use netevent.Text.Lexer.{c_string, parse_client_command}
use netevent.Daemon.State.{Env, M, Reply, ◌>>◌, skip, get, unknown_command, ok_reply}
use netevent.Daemon.Queue.{to_client}
use netevent.Daemon.Events.{Run}
use netevent.Daemon.Commands.Info.{info_lines, to_client_all, info_command}
use netevent.Daemon.Commands.Dispatch.{
  source_line, source_lines, source_command_file, grab_and_write, exec_command, one_argument,
  branch, client_command, client_commands, run_text,
}
use netevent.Daemon.Valid.Keeps.{
  Keeps, Keeps-bind, Keeps-then, Keeps-get, Keeps-if, Keeps-throw, Keeps-skip, keeps_rules,
}
use netevent.Daemon.Valid.Keeps.Queue.{to_client-Keeps}
use netevent.Daemon.Valid.Keeps.Events.{use_output-Keeps}
use netevent.Daemon.Valid.Keeps.Commands.{device_command-Keeps}
use netevent.Daemon.Valid.Keeps.Outputs.{
  hotkey_command-Keeps, action_command-Keeps, shell_command-Keeps, write_command-Keeps,
  grab_command-Keeps, output_command-Keeps,
}

to_client_all-Keeps :
    (env : Env) (client : Option ℕ) (rs : List Reply) → Keeps (to_client_all env client rs)
unfolding to_client_all
to_client_all-Keeps env client [] = search keeps_rules
to_client_all-Keeps env client (r ∷ rs) =
    Keeps-then _ _ (to_client-Keeps env client r) (to_client_all-Keeps env client rs)

info_command-Keeps : (env : Env) (client : Option ℕ) → Keeps (info_command env client)
unfolding info_command
info_command-Keeps env client =
    Keeps-bind get _ Keeps-get (λ d. to_client_all-Keeps env client (info_lines d))

exec_command-Keeps :
    (env : Env) (run : Run) (background : Bool) (args : List Bytes)
    → Keeps (exec_command env run background args)
unfolding exec_command
exec_command-Keeps env run background [] = search keeps_rules
exec_command-Keeps env run background (piece ∷ pieces) = shell_command-Keeps env _ background

module _ (env : Env) (run : Run) (run-Keeps : (c : Option ℕ) (t : Bytes) → Keeps (run c t)) where
  sourced-Keeps :
      (client : Option ℕ) (o : Option Bytes) (k : M (Unit {0}))
      → Keeps k
      → Keeps (elim o [ none ↦ k | some text ↦ run client text >> k ])
  sourced-Keeps client none k h = h
  sourced-Keeps client (some text) k h = Keeps-then _ _ (run-Keeps client text) h

  source_lines-Keeps :
      (client : Option ℕ) (lines : List Bytes) → Keeps (source_lines env run client lines)
  unfolding source_lines
  source_lines-Keeps client [] = search keeps_rules
  source_lines-Keeps client (line ∷ lines) =
      sourced-Keeps client (source_line line) _ (source_lines-Keeps client lines)

  pub source_command_file-Keeps :
      (client : Option ℕ) (path : Bytes) → Keeps (source_command_file env run client path)
  unfolding source_command_file
  source_command_file-Keeps client path = search (keeps_rules, source_lines-Keeps) depth 60

  grab_and_write-Keeps :
      (client : Option ℕ) (state : Bytes) → Keeps (grab_and_write env run client state)
  unfolding grab_and_write
  grab_and_write-Keeps client state =
      Keeps-then _ _ (grab_command-Keeps env run run-Keeps client state) (
        Keeps-then _ _ (write_command-Keeps env run run-Keeps client state)
          (to_client-Keeps env client _))

  one_argument-Keeps :
      (args : List Bytes) (k : Bytes → M (Unit {0}))
      → ((arg : Bytes) → Keeps (k arg))
      → Keeps (one_argument env run args k)
  one_argument-Keeps [] k h = search keeps_rules
  one_argument-Keeps (arg ∷ []) k h = h arg
  one_argument-Keeps (a ∷ b ∷ args) k h = search keeps_rules

  branch-Keeps :
      (client : Option ℕ) (name : Bytes) (args : List Bytes)
      → Keeps (branch env run client name args)
  unfolding branch
  branch-Keeps client name args = Keeps-if (str_eq name (codes "nop")) _ _ Keeps-skip (
      Keeps-if (str_eq name (codes "device")) _ _ (device_command-Keeps env client args) (
        Keeps-if (str_eq name (codes "output")) _ _
          (output_command-Keeps env run run-Keeps client args)
          (Keeps-if (str_eq name (codes "hotkey")) _ _ (hotkey_command-Keeps env client args) (
            Keeps-if (str_eq name (codes "action")) _ _ (action_command-Keeps env client args) (
              Keeps-if (str_eq name (codes "info")) _ _ (info_command-Keeps env client) (
                Keeps-if (str_eq name (codes "write-events")) _ _
                  (one_argument-Keeps args _
                    (λ arg. write_command-Keeps env run run-Keeps client (c_string arg)))
                  (Keeps-if (str_eq name (codes "grab-devices")) _ _
                    (one_argument-Keeps args _
                      (λ arg. grab_command-Keeps env run run-Keeps client (c_string arg)))
                    (Keeps-if (str_eq name (codes "grab")) _ _
                      (one_argument-Keeps args _
                        (λ arg. grab_and_write-Keeps client (c_string arg)))
                      (Keeps-if (str_eq name (codes "use")) _ _
                        (one_argument-Keeps args _
                          (λ arg. use_output-Keeps env run run-Keeps client arg))
                        (Keeps-if (str_eq name (codes "exec")) _ _
                          (exec_command-Keeps env run false args)
                          (Keeps-if (str_eq name (codes "exec&")) _ _
                            (exec_command-Keeps env run true args)
                            (Keeps-if (str_eq name (codes "source")) _ _
                              (one_argument-Keeps args _
                                (λ arg. source_command_file-Keeps client (c_string arg)))
                              (Keeps-if (str_eq name (codes "quit")) _ _ (search keeps_rules)
                                (Keeps-throw (unknown_command name)))))))))))))))

  told-Keeps :
      (client : Option ℕ)
      → Keeps (elim client [ none ↦ skip | some fd ↦ to_client env (some fd) ok_reply ])
  told-Keeps none = search keeps_rules
  told-Keeps (some fd) = to_client-Keeps env (some fd) ok_reply

  client_command-Keeps :
      (client : Option ℕ) (args : List Bytes) → Keeps (client_command env run client args)
  unfolding client_command
  client_command-Keeps client [] = search keeps_rules
  client_command-Keeps client (name ∷ args) =
      Keeps-then _ _ (branch-Keeps client name args) (told-Keeps client)

  client_commands-Keeps :
      (client : Option ℕ) (commands : List (List Bytes))
      → Keeps (client_commands env run client commands)
  unfolding client_commands
  client_commands-Keeps client [] = search keeps_rules
  client_commands-Keeps client (args ∷ rest) =
      Keeps-then _ _ (client_command-Keeps client args) (client_commands-Keeps client rest)

-- `parseClientCommand`, whatever the depth.
pub run_text-Keeps :
    (env : Env) (n : ℕ) (client : Option ℕ) (text : Bytes) → Keeps (run_text env n client text)
unfolding run_text
run_text-Keeps env zero client text = record { at = λ d v. tt }
run_text-Keeps env (suc n) client text =
    client_commands-Keeps env (run_text env n) (run_text-Keeps env n) client
      (parse_client_command (c_string text))
