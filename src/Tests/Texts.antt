-- ===== src/Tests/Texts.antt =====
-- Examples for the numbers, the event names and the command language.
use netevent.Prelude.{
  ◌-◌, ◌%◌, ◌^◌, ◌≡◌, ◌≢◌, refl, inl, inr, false, List, [], ◌∷◌, ◌++◌, some, Bytes, codes, arith,
}
use netevent.Text.Number.{parse_long}
use netevent.Text.Number.Decimal.{parse_long-render}
use netevent.Text.Event.{EventSpec, SpecResult, ok, err, parse_spec, bad_type, bad_code}
use netevent.Text.Event.Show.{parse_spec-show_ne, show}
use netevent.Text.Lexer.{is_white, commands, parse_string, parse_client_command}
use netevent.Text.Lexer.Fuel.{commands_fuel}
use netevent.Text.Lexer.Quote.{parse_string-Lacks, parse_string-escape_text, Lacks, escape_text}
use netevent.Text.Lexer.Words.{parse_client_command-script, script, ArePlain}

parse_long-render_example :
    (parse_long (codes "15") 2 ≡ some 15)
    × (parse_long (codes "-15") 3 ≡ some ((2 ^ 64 - 15) % 2 ^ 64))
parse_long-render_example =
    parse_long-render (1 ∷ 5 ∷ []) [] 2 (ground arith, inl (omega arith)) (omega arith)
      (omega arith) (inl refl)

-- An event of the type at position 7 of the table, read back as the one of that name.
named_by_position :
    parse_spec (show 7 (1 ∷ []) false (1 ∷ [])) ≡ ok (record { type = 0x12; code = 1; value = 1 })
unfolding parse_spec netevent.Text.Event.split_colon netevent.Text.Event.ev2string
    netevent.Text.Event.spec_type netevent.Text.Event.string2ev netevent.Text.Event.spec_code
    netevent.Text.Event.spec_value parse_long
named_by_position = refl

parse_spec-show_ne_example : EventSpec.type (record { type = 0x12; code = 1; value = 1 }) ≢ 7
parse_spec-show_ne_example =
    parse_spec-show_ne 7 (1 ∷ []) false (1 ∷ []) (record { type = 0x12; code = 1; value = 1 })
      (omega arith) named_by_position

commands_fuel_example :
    commands 10 false [] (codes "nop;quit") ≡ commands 20 false [] (codes "nop;quit")
commands_fuel_example = commands_fuel 10 20 false [] (codes "nop;quit") (omega arith) (omega arith)

-- A double-quoted text with an escaped double quote in it.
abbrev escaped_quote : Bytes
escaped_quote = codes "a\\\"b\""

parse_string-Lacks_example : Lacks b'"' (parse_string b'"' escaped_quote).0
parse_string-Lacks_example = parse_string-Lacks b'"' escaped_quote (inl refl)

parse_string-escape_text_example :
    parse_string 39 (escape_text (codes "a\\b") ++ codes "' c") ≡ (codes "a\\b", codes " c")
parse_string-escape_text_example =
    parse_string-escape_text 39 (codes "a\\b") (codes " c") (inr refl) ground arith

abbrev two_commands : List (List Bytes)
two_commands = (codes "exec" ∷ codes "a; b" ∷ []) ∷ (codes "quit" ∷ []) ∷ []

parse_client_command-script_example : parse_client_command (script two_commands) ≡ two_commands
parse_client_command-script_example =
    parse_client_command-script two_commands
      (λ e. cc, (ground arith, (ground arith, tt)), (λ e. cc, (ground arith, tt), tt))

abbrev use_pc : List Bytes
use_pc = codes "use" ∷ codes "pc" ∷ []

use_pc-ArePlain : ArePlain use_pc
unfolding is_white
use_pc-ArePlain = ((λ e. cc, ground arith), ((λ e. cc, ground arith), tt))
