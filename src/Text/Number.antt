-- ===== src/Text/Number.antt =====
-- `parseLong`, `parseULong` and `parseBool` of main.cpp, and `join` of utils.h. A `long` is its
-- 64-bit pattern; what C++ leaves undefined on signed overflow wraps here.
pub mod Decimal
use netevent.Prelude.{
  ℕ, zero, suc, ◌+◌, ◌-◌, ◌*◌, ◌%◌, ◌^◌, Bool, true, false, not, ◌&&◌, ◌||◌, List, [], ◌∷◌, ◌++◌,
  Option, none, some, Bytes, map, length, get_or, drop, ltb, leb, ◌==◌, if◌then◌else◌, codes,
  str_eq,
}

abbrev pub within : ℕ → ℕ → ℕ → Bool
within lo hi c = leb lo c && leb c hi

-- The digit tests of the three loops of `parseLongParse`.
abbrev pub decimal_digit : ℕ → Option ℕ
decimal_digit c = if within b'0' b'9' c then some (c - b'0') else none

abbrev pub octal_digit : ℕ → Option ℕ
octal_digit c = if within b'0' b'7' c then some (c - b'0') else none

abbrev pub hex_digit : ℕ → Option ℕ
hex_digit c =
    if within b'0' b'9' c
    then some (c - b'0')
    else if within b'a' b'f' c
    then some (c - b'a' + 0xa)
    else if within b'A' b'F' c
    then some (c - b'A' + 0xA)
    else none

-- `while (*s && maxlen) …`: the digits of `s` in a base, on top of `out`.
unfoldable pub read_digits : ℕ → (ℕ → Option ℕ) → Bytes → ℕ → ℕ → Option ℕ
read_digits base digit [] maxlen out = some out
read_digits base digit (c ∷ s) maxlen out = if maxlen == 0 then some out else elim (digit c) [
  | none ↦ none
  | some d ↦ read_digits base digit s (maxlen - 1) ((base * out + d) % 2 ^ 64)
]

-- `parseLongParse`
unfoldable pub parse_long_parse : Bytes → ℕ → Option ℕ
unfolding read_digits
parse_long_parse s maxlen =
    let leading = get_or s 0 0 == b'0' && ltb 1 maxlen in
    if leading && get_or s 1 0 == b'x'
    then read_digits 0x10 hex_digit (drop 2 s) (maxlen - 2) 0
    else if leading
    then read_digits 8 octal_digit (drop 1 s) (maxlen - 1) 0
    else read_digits 10 decimal_digit s maxlen 0

-- `while (maxlen && (*s == ' ' || *s == '\t')) …`
unfoldable pub skip_blanks : Bytes → ℕ → Bytes × ℕ
skip_blanks [] maxlen = ([], maxlen)
skip_blanks (c ∷ s) maxlen =
    if not (maxlen == 0) && (c == b' ' || c == b'\t')
    then skip_blanks s (maxlen - 1)
    else (c ∷ s, maxlen)

abbrev is_digit : ℕ → Bool
is_digit c = within b'0' b'9' c

-- The part of `parseLongDo` behind the sign.
unfoldable pub parse_unsigned : Bool → Bytes → ℕ → Option ℕ
unfolding parse_long_parse
parse_unsigned negative s maxlen =
    if maxlen == 0 || not (is_digit (get_or s 0 0))
    then none
    else elim (parse_long_parse s maxlen) [
      | none ↦ none
      | some n ↦ some (if negative then (2 ^ 64 - n) % 2 ^ 64 else n)
    ]

-- `--maxlen` on a `size_t`
abbrev pub decrement : ℕ → ℕ
decrement n = (n + 2 ^ 64 - 1) % 2 ^ 64

-- The part of `parseLongDo` behind the blanks: a sign, and the rest.
unfoldable pub parse_signed : Bool → Bytes × ℕ → Option ℕ
unfolding parse_unsigned
parse_signed allow_signed (t, n) =
    let sign = get_or t 0 0 in
    if sign == b'+' || allow_signed && sign == b'-'
    then parse_unsigned (sign == b'-') (drop 1 t) (decrement n)
    else parse_unsigned false t n

-- `parseLongDo`
unfoldable pub parse_long_do : Bytes → ℕ → Bool → Option ℕ
parse_long_do [] maxlen allow_signed = none
parse_long_do (c ∷ s) maxlen allow_signed =
    if maxlen == 0 then none else parse_signed allow_signed (skip_blanks (c ∷ s) maxlen)

-- `parseLong` and `parseULong`
unfoldable pub parse_long : Bytes → ℕ → Option ℕ
unfolding parse_long_do parse_signed skip_blanks
parse_long s maxlen = parse_long_do s maxlen true

unfoldable pub parse_ulong : Bytes → ℕ → Option ℕ
unfolding parse_long_do parse_signed skip_blanks
parse_ulong s maxlen = parse_long_do s maxlen false

-- `size_t(-1)`, the length that stands for "up to the terminator".
abbrev pub size_max : ℕ
size_max = 2 ^ 64 - 1

-- `tolower` of the C locale.
abbrev pub to_lower : ℕ → ℕ
to_lower c = if within b'A' b'Z' c then c + 32 else c

-- `!strcasecmp(a, b)`
unfoldable pub case_eq : Bytes → Bytes → Bool
unfolding str_eq
case_eq a b = str_eq (map to_lower a) (map to_lower b)

-- `parseBool`: `none` is the return of false, which leaves `*out` alone.
unfoldable pub parse_bool : Bytes → Option Bool
unfolding case_eq
parse_bool s =
    if case_eq s (codes "1")
      || case_eq s (codes "on")
      || case_eq s (codes "yes")
      || case_eq s (codes "true")
    then some true
    else if case_eq s (codes "0")
        || case_eq s (codes "no")
        || case_eq s (codes "off")
        || case_eq s (codes "false")
    then some false
    else none

-- `join`: a separator goes in front of a piece only if something has been written already.
unfoldable pub join_onto : ℕ → Bytes → List Bytes → Bytes
join_onto c s [] = s
join_onto c s (a ∷ rest) = join_onto c (if length s == 0 then a else s ++ (c ∷ a)) rest

unfoldable pub join : ℕ → List Bytes → Bytes
unfolding join_onto
join c pieces = join_onto c [] pieces
