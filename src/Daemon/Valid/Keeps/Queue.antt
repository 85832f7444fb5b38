-- ===== src/Daemon/Valid/Keeps/Queue.antt =====
-- The functions on descriptors, clients and outputs, and the actions, keep the state valid.
use netevent.Prelude.{ℕ, refl, inl, inr, List, [], ◌∷◌, Option, none, some, Bytes, Bool-cases}
use netevent.Daemon.State.{Env, Input, Reply, Callback}
use netevent.Daemon.Queue.{
  contains, remove_fd, remove_output, disconnect_client, finish_client_removal, queue_command,
  read_command, add_fd, set_callback, new_command_client, write_to_output, write_to_outputs,
  announce_device_removal, to_client,
}
use netevent.Daemon.Valid.Entries.{Distinct-append}
use netevent.Daemon.Valid.Keeps.{Keeps, Keeps-bind, same-IsValid, keeps_rules}

pub remove_fd-Keeps : (fd : ℕ) → Keeps (remove_fd fd)
unfolding remove_fd
remove_fd-Keeps fd = record {
  at = λ d v. elim (Bool-cases (contains d.remove_queue fd)) [
    | inl e ↦ rw e v
    | inr e ↦ rw e record {
      removed_once = Distinct-append fd d.remove_queue e v.removed_once;
      in_order = v.in_order;
      ids_fit = v.ids_fit;
      free_fit = v.free_fit;
      hotkeys_fit = v.hotkeys_fit;
    }
  ];
}

pub remove_output-Keeps : (name : Bytes) → Keeps (remove_output name)
unfolding remove_output
remove_output-Keeps name = search (keeps_rules, remove_fd-Keeps) depth 40

pub disconnect_client-Keeps : (fd : ℕ) → Keeps (disconnect_client fd)
unfolding disconnect_client
disconnect_client-Keeps fd = remove_fd-Keeps fd

pub finish_client_removal-Keeps : (fd : ℕ) → Keeps (finish_client_removal fd)
unfolding finish_client_removal
finish_client_removal-Keeps fd = record {
  at = λ d v. elim (Bool-cases (contains d.clients fd)) [
    | inl e ↦ rw e (same-IsValid d _ refl refl refl refl v)
    | inr e ↦ rw e v
  ];
}

pub queue_command-Keeps : (client : Option ℕ) (line : Bytes) → Keeps (queue_command client line)
unfolding queue_command
queue_command-Keeps client line = record { at = λ d v. same-IsValid d _ refl refl refl refl v }

pub read_command-Keeps : (fd : ℕ) (line : Option Bytes) → Keeps (read_command fd line)
unfolding read_command
read_command-Keeps fd none = disconnect_client-Keeps fd
read_command-Keeps fd (some line) = queue_command-Keeps (some fd) line

pub add_fd-Keeps : (fd : ℕ) → Keeps (add_fd fd)
unfolding add_fd
add_fd-Keeps fd = record { at = λ d v. same-IsValid d _ refl refl refl refl v }

pub set_callback-Keeps : (fd : ℕ) (c : Callback) → Keeps (set_callback fd c)
set_callback-Keeps fd c = record { at = λ d v. same-IsValid d _ refl refl refl refl v }

pub new_command_client-Keeps : (fd : ℕ) → Keeps (new_command_client fd)
unfolding new_command_client
new_command_client-Keeps fd = search (keeps_rules, add_fd-Keeps, set_callback-Keeps) depth 40

module _ (env : Env) where
  pub write_to_output-Keeps : (fd : ℕ) (bytes : Bytes) → Keeps (write_to_output env fd bytes)
  unfolding write_to_output
  write_to_output-Keeps fd bytes = search (keeps_rules, remove_fd-Keeps) depth 40

  write_to_outputs-Keeps :
      (bytes : Bytes) (outputs : List (Bytes × ℕ)) → Keeps (write_to_outputs env bytes outputs)
  unfolding write_to_outputs
  write_to_outputs-Keeps bytes [] = search keeps_rules
  write_to_outputs-Keeps bytes ((name, fd) ∷ outputs) =
      Keeps-bind (write_to_output env fd bytes) (λ a. write_to_outputs env bytes outputs)
        (write_to_output-Keeps fd bytes) (λ a. write_to_outputs-Keeps bytes outputs)

  pub announce_device_removal-Keeps : (input : Input) → Keeps (announce_device_removal env input)
  unfolding announce_device_removal
  announce_device_removal-Keeps input = search (keeps_rules, write_to_outputs-Keeps) depth 40

  pub to_client-Keeps : (client : Option ℕ) (r : Reply) → Keeps (to_client env client r)
  unfolding to_client
  to_client-Keeps none r = search keeps_rules
  to_client-Keeps (some fd) r = search (keeps_rules, disconnect_client-Keeps) depth 40
