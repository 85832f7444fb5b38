-- ===== src/Program.antt =====
-- `main` and three of its subcommands as wholes (main.cpp, `main`, `cmd_show`, `cmd_cat`, `cmd_create`): the choice
-- of the subcommand, its options, and what it does. An exception ends the process with status 2.
pub mod Piped
pub mod Shown
use netevent.Prelude.{
  ℕ, Bool, true, false, not, ◌&&◌, ◌||◌, List, [], ◌∷◌, Option, none, some, Bytes, codes, str_eq,
  if◌then◌else◌,
}
use netevent.Packet.{InputEvent}
use netevent.Device.In.{Evdev, InDevice, grab}
use netevent.Device.In.Reads.{Node, Answer, OpenError, Opening, opens, open_throws, open_device}
use netevent.Device.Out.{Uinput, OutDevice}
use netevent.Device.Legacy.{Layout}
use netevent.Cat.{Output, Cat, CatEnd, returned, threw, waits, grab_failed, stops, cat}
use netevent.Cat.Show.{show_events}
use netevent.Cat.Legacy.{EventLayout, Played, cat_legacy, create_legacy}
use netevent.Options.{
  Arguments, Parsed, go, leaves, exit_failure, CatOptions, cat_arguments, show_arguments,
}
use netevent.Options.Create.{CreateOptions, create_arguments}
use netevent.Create.{World, Client, Ended, create}
use netevent.Create.Start.{
  System, Start, StartError, daemon_error, copies, receives, refuses, overflows, start_create,
}

pub data Subcommand : Type 0 where
  show_device cat_device create_device run_daemon send_command : Subcommand

-- A subcommand runs, or the process ends with a status.
pub data Choice : Type 0 where
  runs : Subcommand → Choice
  ends : ℕ → Choice

-- `main`, on the arguments behind the name of the program.
unfoldable pub choose : List Bytes → Choice
unfolding str_eq
choose [] = ends exit_failure
choose (arg ∷ args) =
    if str_eq arg (codes "-V") || str_eq arg (codes "--version")
    then ends 0
    else if str_eq arg (codes "-h") || str_eq arg (codes "-?") || str_eq arg (codes "--help")
    then ends 0
    else if str_eq arg (codes "show")
    then runs show_device
    else if str_eq arg (codes "cat")
    then runs cat_device
    else if str_eq arg (codes "create")
    then runs create_device
    else if str_eq arg (codes "daemon")
    then runs run_daemon
    else if str_eq arg (codes "command")
    then runs send_command
    else ends exit_failure

-- What is outside of `cmd_show` and `cmd_cat`: the device at a path, what the kernel answers about it, the output,
-- and the layout of memory.
pub record Source : Type 0 where
  pub node_at : Bytes → Node
  pub evdev : Evdev
  pub states : ℕ → ℕ → Option Bytes
  pub output : Output
  pub events : EventLayout
  pub layout : Layout
  pub max_of : ℕ → ℕ

-- The process ends with a status, the device is not opened, or the loop runs.
pub data CatRun : Type 0 where
  cat_exits : ℕ → CatRun
  not_opened : OpenError → CatRun
  cat_ran : Cat → CatRun

module _ (k : Source) where
  abbrev pub show_grabbed : ℕ → List Answer → InDevice × Bool → Cat
  show_grabbed max answers (d, true) = show_events max d answers
  show_grabbed max answers (d, false) = stops (threw grab_failed)

  abbrev pub show_opened : Bool → ℕ → List Answer → Opening → CatRun
  show_opened opt_grab max answers (open_throws e) = not_opened e
  show_opened opt_grab max answers (opens d) =
      cat_ran (show_grabbed max answers (if opt_grab then grab k.evdev true d else (d, true)))

  abbrev pub show_parsed : List Answer → Parsed (Bool × Bytes × ℕ) → CatRun
  show_parsed answers (leaves status) = cat_exits status
  show_parsed answers (go (opt_grab, path, max)) =
      show_opened opt_grab max answers (open_device (k.node_at path))

  -- `cmd_show`
  unfoldable pub cmd_show : Arguments → List Answer → CatRun
  unfolding show_arguments open_device grab show_events
  cmd_show a answers = show_parsed answers (show_arguments a)

  abbrev pub cat_opened : CatOptions → List Answer → Opening → CatRun
  cat_opened o answers (open_throws e) = not_opened e
  cat_opened o answers (opens d) = cat_ran (
      if o.legacy
      then cat_legacy k.events k.layout k.max_of k.evdev k.states k.output.takes o.grab d answers
      else cat k.evdev k.output o.grab d answers)

  abbrev pub cat_parsed : List Answer → Parsed (CatOptions × Bytes) → CatRun
  cat_parsed answers (leaves status) = cat_exits status
  cat_parsed answers (go (o, path)) = cat_opened o answers (open_device (k.node_at path))

  -- `cmd_cat`
  unfoldable pub cmd_cat : Arguments → List Answer → CatRun
  unfolding cat_arguments open_device cat cat_legacy
  cmd_cat a answers = cat_parsed answers (cat_arguments a)

-- The status of the process; none while it waits.
abbrev pub end_status : CatEnd → Option ℕ
end_status (returned n) = some n
end_status (threw e) = some 2
end_status waits = none

unfoldable pub cat_status : CatRun → Option ℕ
cat_status (cat_exits status) = some status
cat_status (not_opened e) = some 2
cat_status (cat_ran c) = end_status c.ended

-- The process ends with a status, throws in its start, copies its input, receives packets, or has
-- read a device of version 1 and its events.
pub data CreateRun : Type 0 where
  create_exits : ℕ → CreateRun
  create_refused : StartError → CreateRun
  create_copies : ℕ → CreateRun
  create_ran : Ended → CreateRun
  create_played : Option OutDevice × Played → CreateRun
  create_overflows : CreateRun

-- What is outside of `cmd_create_legacy`: the layouts of memory, the driver, and which writes it
-- takes.
pub record LegacyWorld : Type 0 where
  pub events : EventLayout
  pub layout : Layout
  pub max_of : ℕ → ℕ
  pub driver : Uinput
  pub takes : ℕ → InputEvent → Bool

-- What the standard input delivers.
abbrev pub stdin_of : List Client → Client
stdin_of [] = record { bytes = []; fails = false }
stdin_of (c ∷ clients) = c

module _ (y : System) (w : World) (v : LegacyWorld) where
  abbrev pub legacy_played : Client → Option OutDevice × Played
  legacy_played c = create_legacy v.events v.layout v.max_of v.driver v.takes c.fails c.bytes

  abbrev pub create_started : CreateOptions → List Client → Start → CreateRun
  create_started o clients (copies fd s) = create_copies fd
  create_started o clients (receives infd listening s) =
      create_ran (create w o.duplicates listening clients)
  create_started o clients (refuses e s) = create_refused e
  create_started o clients overflows = create_overflows

  -- `if (optLegacyMode)`
  abbrev pub create_legacy_or : Bool → CreateOptions → List Client → CreateRun
  create_legacy_or true o clients =
      if o.daemonize && not y.daemonizes
      then create_refused daemon_error
      else create_played (legacy_played (stdin_of clients))
  create_legacy_or false o clients = create_started o clients (start_create y o)

  abbrev pub create_parsed : List Client → Parsed CreateOptions → CreateRun
  create_parsed clients (leaves status) = create_exits status
  create_parsed clients (go o) = create_legacy_or o.legacy o clients

  -- `cmd_create`, where the clients are what the descriptors deliver.
  unfoldable pub cmd_create : Arguments → List Client → CreateRun
  unfolding create_arguments start_create create create_legacy
  cmd_create a clients = create_parsed clients (create_arguments a)
