-- ===== src/Text/Lexer/Fuel.antt =====
-- The loop ends: any fuel above the length of the text gives the same commands.
use netevent.Prelude.{
  ℕ, zero, suc, ◌≤◌, ◌<◌, ◌≡◌, refl, Bool, true, false, not, ◌&&◌, List, [], ◌∷◌, ◌++◌, Bytes,
  length, ◌==◌, arith,
}
use netevent.Text.Lexer.{skip_white, string_body, parse_string, word, round, commands}

skip_white-le : (s : Bytes) → length (skip_white s) ≤ length s
unfolding skip_white
skip_white-le [] = omega arith
skip_white-le (c ∷ s) = ground (arith, skip_white-le s)

string_body-le : (q : ℕ) (e : Bool) (s : Bytes) → length (string_body q e s).1 ≤ length s
unfolding string_body
string_body-le q e [] = omega arith
string_body-le q e (c ∷ s) = ground (arith, string_body-le q (not e && c == b'\\') s)

parse_string-le : (q : ℕ) (s : Bytes) → length (parse_string q s).1 ≤ length s
unfolding parse_string
parse_string-le q s = string_body-le q false s

-- The loop over an argument consumes at least one character.
word-le : (e : Bool) (c : ℕ) (s : Bytes) → length (word e (c ∷ s)).1 ≤ length s
unfolding word
word-le e c [] = omega arith
word-le e c (d ∷ s) = ground (arith, word-le (not e && c == b'\\') d s)

round-eq :
    (f g : Bool → List Bytes → Bytes → List (List Bytes)) (escape : Bool) (args : List Bytes)
    (s : Bytes)
    → ((e : Bool) (a : List Bytes) (t : Bytes) → length t < length s → f e a t ≡ g e a t)
    → round f escape args s ≡ round g escape args s
unfolding round
round-eq f g escape args [] h = refl
round-eq f g escape args (c ∷ r) h = ground (
  arith,
  h true args r (omega arith),
  h escape [] r (omega arith),
  h escape (args ++ ((parse_string c r).0 ∷ [])) (parse_string c r).1
      (omega (arith, parse_string-le c r)),
  h false (args ++ ((word false (c ∷ r)).0 ∷ [])) (word false (c ∷ r)).1
      (omega (arith, word-le false c r)),
)

-- The commands that `parseClientCommand` finds do not depend on the fuel, as soon as that is above the
-- length of the text: its loop ends by itself.
pub commands_fuel :
    (f g : ℕ) (escape : Bool) (args : List Bytes) (s : Bytes)
    → length s < f
    → length s < g
    → commands f escape args s ≡ commands g escape args s
unfolding commands
commands_fuel zero g escape args s h k = absurd (omega arith)
commands_fuel (suc f) zero escape args s h k = absurd (omega arith)
commands_fuel (suc f) (suc g) escape args s h k =
    round-eq (commands f) (commands g) escape args (skip_white s) (λ e a t l.
      commands_fuel f g e a t (omega (arith, skip_white-le s)) (omega (arith, skip_white-le s)))
