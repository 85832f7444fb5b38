-- ===== src/Text/Lexer.antt =====
-- The command language of the daemon (daemon.cpp, `isWhite`, `skipWhite`, `parseString` and
-- `parseClientCommand`). A C string is the list of its bytes; its end stands for the terminator.
-- `parseClientCommand` runs each command as soon as its arguments are complete. The text is taken to
-- stay as it is while its commands run, so the model returns the commands in order, and the daemon
-- runs them until one throws. That holds for the lines of clients and files; for an action that
-- removes or sets itself see `fire_event`.
pub mod Fuel
pub mod Quote
pub mod Words
use netevent.Prelude.{
  ℕ, zero, suc, ◌+◌, Bool, true, false, not, ◌&&◌, ◌||◌, List, [], ◌∷◌, ◌++◌, Bytes, length, ◌==◌,
  if◌then◌else◌,
}

-- What `c_str` passes on: the characters in front of the first NUL.
unfoldable pub c_string : Bytes → Bytes
c_string [] = []
c_string (c ∷ s) = if c == 0 then [] else c ∷ c_string s

-- `isWhite`
unfoldable pub is_white : ℕ → Bool
is_white c = c == b' ' || c == b'\t' || c == b'\r' || c == b'\n'

-- `skipWhite`; it returns whether anything is left.
unfoldable pub skip_white : Bytes → Bytes
unfolding is_white
skip_white [] = []
skip_white (c ∷ s) = if is_white c then skip_white s else c ∷ s

-- What `parseString` appends for the character behind a backslash.
unfoldable pub unescape : ℕ → Bytes
unescape c =
    if c == b'\\'
    then b'\\' ∷ []
    else if c == b't'
    then b'\t' ∷ []
    else if c == b'r'
    then b'\r' ∷ []
    else if c == b'n'
    then b'\n' ∷ []
    else if c == b'f'
    then 12 ∷ []
    else if c == b'v'
    then 11 ∷ []
    else if c == b'b'
    then 8 ∷ []
    else if c == b'"'
    then b'"' ∷ []
    else if c == 39
    then 39 ∷ []
    else if c == b'0'
    then 0 ∷ []
    else b'\\' ∷ c ∷ []

-- The loop of `parseString`: the string read and the text behind its closing quote.
unfoldable pub string_body : ℕ → Bool → Bytes → Bytes × Bytes
unfolding unescape
string_body quote escape [] = ([], [])
string_body quote escape (c ∷ s) =
    if c == quote
    then ([], s)
    else let now = if escape then unescape c else if c == b'\\' then [] else c ∷ [] in
      let (str, rest) = string_body quote (not escape && c == b'\\') s in (now ++ str, rest)

-- `parseString`, at the opening quote.
unfoldable pub parse_string : ℕ → Bytes → Bytes × Bytes
unfolding string_body
parse_string quote s = string_body quote false s

-- The condition under which the loop over an unquoted argument stops before a character.
abbrev pub stops : Bool → ℕ → Bool
stops escape c = is_white c || not escape && c == b';'

-- The `do` loop over an unquoted argument: its text, and what is left.
unfoldable pub word : Bool → Bytes → Bytes × Bytes
unfolding is_white
word escape [] = ([], [])
word escape (c ∷ []) = (if not escape && c == b'\\' then [] else c ∷ [], [])
word escape (c ∷ d ∷ s) =
    let escape' = not escape && c == b'\\' in
    let (w, rest) = if stops escape' d then ([], d ∷ s) else word escape' (d ∷ s) in
    (if escape' then w else c ∷ w, rest)

-- A command that is complete, in front of the later ones; one with no argument is dropped.
abbrev pub emit : List Bytes → List (List Bytes) → List (List Bytes)
emit [] later = later
emit (a ∷ args) later = (a ∷ args) ∷ later

-- One round of the loop of `parseClientCommand`, behind the white space; `again` is the loop.
unfoldable pub round :
    (Bool → List Bytes → Bytes → List (List Bytes)) → Bool → List Bytes → Bytes → List (List Bytes)
round again escape args [] = emit args []
round again escape args (c ∷ r) =
    let quoted = let (str, rest) = parse_string c r in again escape (args ++ (str ∷ [])) rest in
    let plain = let (w, rest) = word false (c ∷ r) in again false (args ++ (w ∷ [])) rest in
    if escape
    then plain
    else if c == b'\\'
    then again true args r
    else if c == b';'
    then emit args (again escape [] r)
    else if c == b'"' || c == 39
    then quoted
    else plain

-- The loop of `parseClientCommand`, with fuel for its rounds.
unfoldable pub commands : ℕ → Bool → List Bytes → Bytes → List (List Bytes)
commands zero escape args s = emit args []
commands (suc fuel) escape args s = round (commands fuel) escape args (skip_white s)

-- `parseClientCommand`: every round consumes a character.
unfoldable pub parse_client_command : Bytes → List (List Bytes)
unfolding commands round skip_white parse_string word
parse_client_command s = commands (suc (length s)) false [] s
