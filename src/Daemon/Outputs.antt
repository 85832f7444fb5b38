-- ===== src/Daemon/Outputs.antt =====
-- The outputs (daemon.cpp, `finishOutputRemoval` and `addOutput`). Opening one, a file, a process or
-- a socket, is the environment's.
pub mod Open
use netevent.Prelude.{
  ℕ, Bool, true, false, List, [], ◌∷◌, Option, none, some, Bytes, ◌==◌, if◌then◌else◌, codes,
  str_eq, ltb,
}
use netevent.Text.Number.{join}
use netevent.Text.Lexer.{c_string}
use netevent.Packet.{hello_packet}
use netevent.Daemon.Map.{Map, find, erase, emplace, string_lt}
use netevent.Daemon.State.{
  Daemon, Env, M, throw, ◌>>=◌, ◌>>◌, skip, get, modify, when, require, some_or, effect, next_call,
  wrote, output_fd, output_exists, output_failed, hello_failed, output_not_found, output_add_usage,
  added_output,
}
use netevent.Daemon.Queue.{to_client}
use netevent.Daemon.Events.{Run, lost_current_output}
use netevent.Daemon.Inputs.{announce_all_devices}

abbrev pub is_current : Daemon → ℕ → Bool
is_current d fd = elim d.current_fd [ none ↦ false | some c ↦ c == fd ]

-- The loop of `finishOutputRemoval`: the name of the output with a descriptor.
unfoldable pub output_at : ℕ → Map Bytes ℕ → Option Bytes
output_at fd [] = none
output_at fd ((name, fd') ∷ m) = if fd' == fd then some name else output_at fd m

-- `finishOutputRemoval`
unfoldable pub finish_output_removal : Env → Run → ℕ → M (Unit {0})
unfolding output_at lost_current_output
finish_output_removal env run fd = do
  d ← get
  when (is_current d fd) (lost_current_output env run)
  d ← get
  name ← some_or (output_at fd d.outputs) output_not_found
  modify (λ d. record d { outputs = erase string_lt name d.outputs })

module _ (env : Env) where
  -- `addOutput_Finish`
  unfoldable pub add_output_finish : Bytes → ℕ → Bool → M (Unit {0})
  unfolding announce_all_devices
  add_output_finish name fd skip_announce = do
    n ← next_call
    require (env.write_ok n fd hello_packet) hello_failed
    effect (wrote fd hello_packet)
    d ← get
    if skip_announce then skip else announce_all_devices env fd d.inputs
    modify (λ d. record d {
      outputs = emplace string_lt name fd d.outputs;
      callbacks = emplace ltb fd output_fd d.callbacks;
    })

  -- `addOutput(const string&, const char*, bool)`
  unfoldable pub add_output_named : Bytes → Bytes → Bool → M (Unit {0})
  unfolding add_output_finish
  add_output_named name path skip_announce = do
    d ← get
    elim (find string_lt name d.outputs) [ none ↦ skip | some _ ↦ throw (output_exists name) ]
    n ← next_call
    fd ← some_or (env.open_output n path) output_failed
    add_output_finish name fd skip_announce

  -- The name and the path of `output add`.
  unfoldable pub add_output_args : Option ℕ → Bool → List Bytes → M (Unit {0})
  unfolding add_output_named
  add_output_args client skip_announce (name ∷ piece ∷ pieces) =
      add_output_named name (c_string (join b' ' (piece ∷ pieces))) skip_announce
      >> to_client env client (added_output name)
  add_output_args client skip_announce _ = throw output_add_usage

  -- `addOutput(int, const vector<string>&)`, with the arguments behind `output add`.
  unfoldable pub add_output : Option ℕ → List Bytes → M (Unit {0})
  unfolding add_output_args
  add_output client [] = throw output_add_usage
  add_output client (arg ∷ args) =
      if str_eq arg (codes "--resume")
      then add_output_args client true args
      else add_output_args client false (arg ∷ args)
