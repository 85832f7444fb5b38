-- ===== src/Options.antt =====
-- The options of the subcommands (main.cpp, `cmd_cat`, `cmd_show` and `cmd_create`; daemon.cpp,
-- `cmd_daemon`): the loops over what `getopt_long` finds, and the tests behind them.
pub mod Create
pub mod Reference
use netevent.Prelude.{
  ℕ, Bool, true, false, List, [], ◌∷◌, ◌++◌, Option, none, some, Bytes, ◌==◌, if◌then◌else◌,
}
use netevent.Text.Number.{parse_ulong, size_max}

-- What `getopt_long` returns, each with `optarg`, and the arguments from `optind` on.
pub record Arguments : Type 0 where
  pub results : List (ℕ × Bytes)
  pub operands : List Bytes

-- A subcommand goes on, or the process ends with a status: by `exit`, or by what `main` returns,
-- of which the last byte counts.
pub data Parsed (A : Type 0) : Type 0 where
  go : A → Parsed A
  leaves : ℕ → Parsed A

infixl 5 ◌>>=◌
abbrev pub ◌>>=◌ : {A B : Type 0} → Parsed A → (A → Parsed B) → Parsed B
go a >>= f = f a
leaves n >>= f = leaves n

-- `EXIT_FAILURE` of `usage`, and `return -1`.
abbrev pub exit_failure : ℕ
exit_failure = 1

abbrev pub getopt_error : ℕ
getopt_error = 255

-- `optLegacyMode` and `optGrab`
pub record CatOptions : Type 0 where
  pub legacy : Bool
  pub grab : Bool

unfoldable pub cat_options : List (ℕ × Bytes) → CatOptions → Parsed CatOptions
cat_options [] o = go o
cat_options ((c, arg) ∷ rs) o =
    let rest = cat_options rs in
    if c == b'h'
    then leaves 0
    else if c == b'l'
    then rest (record o { legacy = true })
    else if c == 0x1000
    then rest (record o { legacy = false })
    else if c == b'g'
    then rest (record o { grab = true })
    else if c == b'G'
    then rest (record o { grab = false })
    else if c == b'?'
    then rest o
    else leaves getopt_error

-- `cmd_cat` in front of its device: the options and the path.
abbrev pub one_operand : {A : Type 0} → ℕ → A → List Bytes → Parsed (A × Bytes)
one_operand status o (path ∷ []) = go (o, path)
one_operand status o _ = leaves status

unfoldable pub cat_arguments : Arguments → Parsed (CatOptions × Bytes)
unfolding cat_options
cat_arguments a = do
  o ← cat_options a.results (record { legacy = false; grab = true })
  one_operand exit_failure o a.operands

-- `optGrab` of `cmd_show`
unfoldable pub show_options : List (ℕ × Bytes) → Bool → Parsed Bool
show_options [] grab = go grab
show_options ((c, arg) ∷ rs) grab =
    let rest = show_options rs in
    if c == b'h'
    then leaves 0
    else if c == b'g'
    then rest true
    else if c == b'G'
    then rest false
    else if c == b'?'
    then rest grab
    else leaves getopt_error

-- The path and the count of `cmd_show`.
unfoldable pub show_operands : List Bytes → Parsed (Bytes × ℕ)
show_operands (path ∷ []) = go (path, 10)
show_operands (path ∷ count ∷ []) = elim (parse_ulong count size_max) [
  | none ↦ leaves 2
  | some n ↦ go (path, n)
]
show_operands _ = leaves exit_failure

unfoldable pub show_arguments : Arguments → Parsed (Bool × Bytes × ℕ)
unfolding show_options show_operands
show_arguments a = do
  grab ← show_options a.results false
  (path, count) ← show_operands a.operands
  go (grab, path, count)

-- `command_files` of `cmd_daemon`; `-l` is in its option string, and has no case.
unfoldable pub daemon_options : List (ℕ × Bytes) → List Bytes → Parsed (List Bytes)
daemon_options [] files = go files
daemon_options ((c, arg) ∷ rs) files =
    let rest = daemon_options rs in
    if c == b'h'
    then leaves 0
    else if c == b's'
    then rest (files ++ (arg ∷ []))
    else if c == b'?'
    then rest files
    else leaves getopt_error

-- The command files and the name of the socket.
unfoldable pub daemon_arguments : Arguments → Parsed (List Bytes × Bytes)
unfolding daemon_options
daemon_arguments a = do files ← daemon_options a.results []; one_operand 2 files a.operands
