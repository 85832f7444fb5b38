-- ===== src/Options/Create.antt =====
-- The options of `cmd_create` (main.cpp).
use netevent.Prelude.{
  ℕ, Bool, true, false, not, ◌&&◌, List, [], ◌∷◌, Option, none, some, Bytes, codes, ◌==◌,
  if◌then◌else◌,
}
use netevent.Text.Number.{case_eq}
use netevent.Create.{Duplicates, reject, resume, replace}
use netevent.Options.{Arguments, Parsed, go, leaves, ◌>>=◌, exit_failure, getopt_error}

-- The variables in front of the loop over the options; `end_on_close` is CloseAction::End.
pub record CreateOptions : Type 0 where
  pub no_legacy : Bool
  pub legacy : Bool
  pub daemonize : Bool
  pub connect : Bool
  pub duplicates : Duplicates
  pub end_on_close : Bool
  pub listen : Option Bytes

abbrev pub create_defaults : CreateOptions
create_defaults = record {
  no_legacy = false;
  legacy = false;
  daemonize = false;
  connect = false;
  duplicates = reject;
  end_on_close = false;
  listen = none;
}

-- The values that `--duplicates` and `--on-close` take.
unfoldable pub duplicates_of : Bytes → Option Duplicates
unfolding case_eq
duplicates_of arg =
    if case_eq arg (codes "reject")
    then some reject
    else if case_eq arg (codes "resume")
    then some resume
    else if case_eq arg (codes "replace")
    then some replace
    else none

unfoldable pub ends_of : Bytes → Option Bool
unfolding case_eq
ends_of arg =
    if case_eq arg (codes "end")
    then some true
    else if case_eq arg (codes "accept")
    then some false
    else none

-- The cases of the `switch`.
pub data CreateOption : Type 0 where
  help legacy_on legacy_off daemonize_on daemonize_off connect_on connect_off : CreateOption
  duplicates_mode listen_on on_close wrong_option other_option : CreateOption

unfoldable pub option_of : ℕ → CreateOption
option_of c =
    if c == b'h'
    then help
    else if c == b'l'
    then legacy_on
    else if c == 0x1000
    then legacy_off
    else if c == 0x1003
    then daemonize_on
    else if c == 0xf003
    then daemonize_off
    else if c == 0x1004
    then connect_on
    else if c == 0xf004
    then connect_off
    else if c == b'd'
    then duplicates_mode
    else if c == 0x1001
    then listen_on
    else if c == 0x1002
    then on_close
    else if c == b'?'
    then wrong_option
    else other_option

abbrev pub with_duplicates : CreateOptions → Option Duplicates → Parsed CreateOptions
with_duplicates o none = leaves exit_failure
with_duplicates o (some mode) = go (record o { no_legacy = true; duplicates = mode })

abbrev pub with_end : CreateOptions → Option Bool → Parsed CreateOptions
with_end o none = leaves exit_failure
with_end o (some e) = go (record o { no_legacy = true; end_on_close = e })

unfoldable pub create_option : CreateOption → Bytes → CreateOptions → Parsed CreateOptions
create_option help arg o = leaves 0
create_option legacy_on arg o = go (record o { legacy = true })
create_option legacy_off arg o = go (record o { legacy = false })
create_option daemonize_on arg o = go (record o { daemonize = true })
create_option daemonize_off arg o = go (record o { daemonize = false })
create_option connect_on arg o = go (record o { connect = true })
create_option connect_off arg o = go (record o { connect = false })
create_option duplicates_mode arg o = with_duplicates o (duplicates_of arg)
create_option listen_on arg o = go (record o { no_legacy = true; listen = some arg })
create_option on_close arg o = with_end o (ends_of arg)
create_option wrong_option arg o = go o
create_option other_option arg o = leaves getopt_error

-- The loop.
unfoldable pub create_options : List (ℕ × Bytes) → CreateOptions → Parsed CreateOptions
unfolding option_of create_option
create_options [] o = go o
create_options ((c, arg) ∷ rs) o = do o' ← create_option (option_of c) arg o; create_options rs o'

abbrev pub is_some : {A : Type 0} → Option A → Bool
is_some none = false
is_some (some a) = true

-- The tests behind the loop.
unfoldable pub check_options : CreateOptions → List Bytes → Parsed CreateOptions
check_options o (operand ∷ operands) =
    if o.legacy && o.no_legacy
    then leaves 2
    else if o.connect && not (is_some o.listen)
    then leaves 2
    else leaves exit_failure
check_options o [] =
    if o.legacy && o.no_legacy
    then leaves 2
    else if o.connect && not (is_some o.listen)
    then leaves 2
    else go o

unfoldable pub create_arguments : Arguments → Parsed CreateOptions
unfolding create_options check_options
create_arguments a = do o ← create_options a.results create_defaults; check_options o a.operands
