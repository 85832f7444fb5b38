-- ===== src/Text/Event.antt =====
-- Event names (main.h, `kEVMap` and `EV2String`; main.cpp, `String2EV`), and the event
-- specifications `TYPE:CODE:VALUE` of the hotkey commands (daemon.cpp, `clientCommand_Hotkey`). The
-- numbers of the event types are those of the kernel's linux/input-event-codes.h. A string argument
-- is taken to hold no NUL byte.
pub mod Show
use netevent.Prelude.{
  ℕ, zero, suc, ◌+◌, ◌-◌, ◌%◌, ◌^◌, Bool, true, false, ◌&&◌, ◌||◌, List, [], ◌∷◌, ◌++◌, Option,
  none, some, Bytes, length, drop, ltb, leb, ◌==◌, if◌then◌else◌, codes,
}
use netevent.Text.Number.{to_lower, parse_long, parse_ulong, size_max}

abbrev pub ev_ff : ℕ
ev_ff = 0x15

abbrev pub ev_max : ℕ
ev_max = 0x1f

abbrev pub ev_cnt : ℕ
ev_cnt = 0x20

-- `kEVMap`
abbrev pub ev_map : List (ℕ × Bytes)
ev_map =
    (0, codes "SYN")
    ∷ (1, codes "KEY")
    ∷ (2, codes "REL")
    ∷ (3, codes "ABS")
    ∷ (4, codes "MSC")
    ∷ (5, codes "SW ")
    ∷ (0x11, codes "LED")
    ∷ (0x12, codes "SND")
    ∷ (0x14, codes "REP")
    ∷ (0x15, codes "FF")
    ∷ (0x16, codes "PWR")
    ∷ (0x17, codes "FF_STATUS")
    ∷ []

name_at : List (ℕ × Bytes) → ℕ → Bytes
name_at [] i = codes "<Unknown>"
name_at ((num, name) ∷ m) zero = name
name_at ((num, name) ∷ m) (suc i) = name_at m i

-- `EV2String`: the entry at position `ev`, within the table.
unfoldable pub ev2string : ℕ → Bytes
unfolding name_at
ev2string ev = name_at ev_map ev

-- `strncasecmp(a, b, n) == 0`
unfoldable pub case_prefix_eq : Bytes → Bytes → ℕ → Bool
case_prefix_eq a b zero = true
case_prefix_eq [] [] (suc n) = true
case_prefix_eq [] (y ∷ b) (suc n) = false
case_prefix_eq (x ∷ a) [] (suc n) = false
case_prefix_eq (x ∷ a) (y ∷ b) (suc n) = to_lower x == to_lower y && case_prefix_eq a b n

-- The loop over `kEVMap`.
unfoldable pub find_name : List (ℕ × Bytes) → Bytes → ℕ → Option ℕ
unfolding case_prefix_eq
find_name [] text length = none
find_name ((num, name) ∷ m) text length =
    if case_prefix_eq text name length then some num else find_name m text length

-- `unsigned(-1)`
abbrev pub unsigned_max : ℕ
unsigned_max = 2 ^ 32 - 1

-- The part of `String2EV` behind the test for a prefix `EV_`.
unfoldable pub string2ev_bare : Bytes → ℕ → ℕ
unfolding find_name parse_ulong
string2ev_bare text n = elim (find_name ev_map text n) [
  | some num ↦ num
  | none ↦ elim (parse_ulong text n) [ some num ↦ num % 2 ^ 32 | none ↦ unsigned_max ]
]

-- `String2EV`
unfoldable pub string2ev : Bytes → ℕ → ℕ
unfolding string2ev_bare case_prefix_eq
string2ev text n =
    if ltb 3 n && case_prefix_eq text (codes "EV_") 3
    then string2ev_bare (drop 3 text) (n - 3)
    else string2ev_bare text n

-- The refusals of a specification.
pub data SpecError : Type 0 where
  invalid_definition no_such_type bad_type bad_code bad_value : SpecError

pub record EventSpec : Type 0 where
  pub type : ℕ
  pub code : ℕ
  pub value : ℕ

pub data SpecResult : Type 0 where
  ok : EventSpec → SpecResult
  err : SpecError → SpecResult

-- `string::find(':')`: what stands before the first colon and what stands behind it.
unfoldable pub split_colon : Bytes → Option (Bytes × Bytes)
split_colon [] = none
split_colon (c ∷ s) =
    if c == b':'
    then some ([], s)
    else elim (split_colon s) [ none ↦ none | some (a, b) ↦ some (c ∷ a, b) ]

-- The value, behind the second colon.
unfoldable pub spec_value : ℕ → ℕ → Bytes → SpecResult
spec_value type code text = elim (parse_long text size_max) [
  | none ↦ err bad_value
  | some value ↦ ok (record { type = type; code = code; value = value % 2 ^ 32 })
]

-- The code, between the colons; `behind` is all that follows the first one.
unfoldable pub spec_code : ℕ → Bytes → ℕ → Bytes → SpecResult
spec_code type behind n text = elim (parse_ulong behind n) [
  | none ↦ err bad_code
  | some code ↦ if ltb 0xffff code then err bad_code else spec_value type code text
]

-- The type, before the first colon.
unfoldable pub spec_type : Bytes → ℕ → Bytes → ℕ → Bytes → SpecResult
spec_type spec n behind m text =
    let type = string2ev spec n in
    if type == unsigned_max
    then err no_such_type
    else if ltb ev_max type
    then err bad_type
    else spec_code type behind m text

-- The colons: both are there, and neither is the last character.
unfoldable pub parse_spec : Bytes → SpecResult
parse_spec spec = elim (split_colon spec) [
  | none ↦ err invalid_definition
  | some (before, behind) ↦ elim (split_colon behind) [
    | none ↦ err invalid_definition
    | some (middle, text) ↦
        if length text == 0
        then err invalid_definition
        else spec_type spec (length before) behind (length middle) text
  ]
]
