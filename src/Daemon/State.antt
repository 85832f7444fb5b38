-- ===== src/Daemon/State.antt =====
-- The globals of daemon.cpp as one record, the environment that answers its system calls, and the
-- monad of its functions. A client of -1 is `none`.
use netevent.Prelude.{
  ◌≡◌, refl, ℕ, suc, Bool, false, List, [], ◌∷◌, Option, none, some, Bytes, if◌then◌else◌,
}
use netevent.Text.Event.{SpecError}
use netevent.Packet.{InputEvent}
use netevent.Device.In.{InDevice, Evdev}
use netevent.Daemon.Map.{Map, HotkeyDef}

-- The exceptions: one for each message that the handlers throw.
pub data Error : Type 0 where
  no_such_output output_exists no_such_device device_exists : Bytes → Error
  too_many_inputs no_cleanup_callback no_such_client device_not_found output_not_found : Error
  callback_map_broken accept_failed poll_failed : Error
  server_removed output_add_usage event_unreadable : Error
  unknown_write_state unknown_grab_state : Bytes → Error
  unknown_event_type : ℕ → Error
  missing_subcommand usage unknown_subcommand missing_action missing_command : Error
  unknown_command : Bytes → Error
  bad_spec : SpecError → Error
  name_too_long fork_failed device_failed output_failed grab_failed hello_failed : Error
  source_failed : Bytes → Error

-- The messages to a client.
pub data Reply : Type 0 where
  added_output removing_output using_output added_device removing_device : Bytes → Reply
  renamed_device : Bytes → Bytes → Reply
  reset_device made_persistent made_removable not_boolean : Bytes → Reply
  added_hotkey removed_hotkey : HotkeyDef → Reply
  action_removed action_replaced action_added : Bytes → Reply
  grab_deprecated ok_reply : Reply
  error_reply : Error → Reply
  grab_devices write_events : Bool → Reply
  input_count output_count : ℕ → Reply
  input_line : ℕ → Bytes → ℕ → Reply
  output_line : Bytes → ℕ → Reply
  current_output : Option ℕ → Bytes → Reply
  hotkeys_title actions_title : Reply
  hotkey_line : HotkeyDef → Bytes → Bytes → Reply
  action_line : Bytes → Bytes → Reply

-- What the daemon does to the outside.
pub data Effect : Type 0 where
  wrote : ℕ → Bytes → Effect
  set_env : Bytes → Bytes → Effect
  replied : Option ℕ → Reply → Effect
  ran : Bytes → Bool → Effect

-- What a descriptor's callbacks belong to.
pub data Callback : Type 0 where
  server command_client output_fd : Callback
  device : ℕ → Callback

-- `Input`
pub record Input : Type 0 where
  pub id : ℕ
  pub device : InDevice

-- `Command`
pub record Command : Type 0 where
  pub client : Option ℕ
  pub command : Bytes

-- The globals. The head of `free_ids` is the back of `gInputIDFreeList`. `calls` counts the system
-- calls whose answers come from the environment, and `trace` holds the effects, latest first.
pub record Daemon : Type 0 where
  pub quit : Bool
  pub remove_queue : List ℕ
  pub add_queue : List ℕ
  pub callbacks : Map ℕ Callback
  pub clients : List ℕ
  pub command_queue : List Command
  pub free_ids : List ℕ
  pub inputs : Map Bytes Input
  pub outputs : Map Bytes ℕ
  pub current_fd : Option ℕ
  pub current_name : Bytes
  pub write : Bool
  pub grab : Bool
  pub hotkeys : Map HotkeyDef Bytes
  pub event_commands : Map Bytes Bytes
  pub calls : ℕ
  pub trace : List Effect

-- What `mustRead` finds at an event device: a whole event, the end of the file, or an error.
pub data EventRead : Type 0 where
  got : InputEvent → EventRead
  at_end read_error : EventRead

-- The answers of the system, by the number of the call: whether a write takes all its bytes, a
-- device that is opened, the kernel's answers about a device, the descriptor of an output that is
-- opened (a file, a process or a socket), whether `fork` works, whether a message reaches its
-- client, the connection that is accepted, the line that a client sends, what a device has to
-- read, and the lines of a file, each with its line feed if it has
-- one, with whether the reading ended by an error.
pub record Env : Type 0 where
  pub write_ok : ℕ → ℕ → Bytes → Bool
  pub open_device : ℕ → Bytes → Option InDevice
  pub evdev : ℕ → ℕ → Evdev
  pub open_output : ℕ → Bytes → Option ℕ
  pub fork_ok : ℕ → Bytes → Bool
  pub reply_ok : ℕ → ℕ → Reply → Bool
  pub accept : ℕ → Option ℕ
  pub read_line : ℕ → ℕ → Option Bytes
  pub read_event : ℕ → ℕ → EventRead
  pub read_file : ℕ → Bytes → Option (List Bytes × Bool)

-- A call returns or throws, and keeps what it has done; or the fuel for nested commands runs out.
pub data Outcome (A : Type 0) : Type 0 where
  done : A → Daemon → Outcome A
  thrown : Error → Daemon → Outcome A
  out_of_fuel : Outcome A

abbrev pub M : Type 0 → Type 0
M A = Daemon → Outcome A

abbrev pub pure : {A : Type 0} → A → M A
pure a d = done a d

abbrev pub throw : {A : Type 0} → Error → M A
throw e d = thrown e d

infixl 5 ◌>>=◌ ◌>>◌
abbrev pub ◌>>=◌ : {A B : Type 0} → M A → (A → M B) → M B
◌>>=◌ m f d = elim (m d) [
  | done a d' ↦ f a d'
  | thrown e d' ↦ thrown e d'
  | out_of_fuel ↦ out_of_fuel
]

abbrev pub ◌>>◌ : {B : Type 0} → M (Unit {0}) → M B → M B
m >> k = m >>= λ _. k

-- A chain whose first part returns goes on.
pub bind-done :
    {A B : Type 0} (m : M A) (f : A → M B) (d d' : Daemon) (a : A)
    → m d ≡ done a d'
    → (m >>= f) d ≡ f a d'
bind-done m f d d' a h = rw (h, ◌>>=◌) refl

abbrev pub skip : M (Unit {0})
skip d = done tt d

abbrev pub get : M Daemon
get d = done d d

abbrev pub modify : (Daemon → Daemon) → M (Unit {0})
modify f d = done tt (f d)

abbrev pub when : Bool → M (Unit {0}) → M (Unit {0})
when b m d = if b then m d else done tt d

abbrev pub require : Bool → Error → M (Unit {0})
require b e d = if b then done tt d else thrown e d

abbrev pub some_or : {A : Type 0} → Option A → Error → M A
some_or none e d = thrown e d
some_or (some a) e d = done a d

-- `try { m } catch (…) { h }`
abbrev pub catch_all : {A : Type 0} → M A → (Error → M A) → M A
catch_all m h d = elim (m d) [
  | done a d' ↦ done a d'
  | thrown e d' ↦ h e d'
  | out_of_fuel ↦ out_of_fuel
]

abbrev pub effect : Effect → M (Unit {0})
effect e d = done tt (record d { trace = e ∷ d.trace })

-- The number of the next system call.
abbrev pub next_call : M ℕ
next_call d = done d.calls (record d { calls = suc d.calls })

-- The state in front of `main`'s loop.
abbrev pub initial : Daemon
initial = record {
  quit = false;
  remove_queue = [];
  add_queue = [];
  callbacks = [];
  clients = [];
  command_queue = [];
  free_ids = [];
  inputs = [];
  outputs = [];
  current_fd = none;
  current_name = [];
  write = false;
  grab = false;
  hotkeys = [];
  event_commands = [];
  calls = 0;
  trace = [];
}
