-- ===== src/Text/Lexer/Words.antt =====
-- Command lines written with quoted or with plain arguments are split back into these arguments.
use netevent.Prelude.{
  ℕ, suc, ◌<◌, ◌≡◌, ◌≢◌, inl, refl, sym, ap, ◌∙◌, Bool, true, false, List, [], ◌∷◌, ◌++◌, Bytes,
  length, ◌==◌, arith, append_assoc, append-nil, length-append,
}
use netevent.Text.Number.{join, join_onto}
use netevent.Text.Lexer.{
  is_white, skip_white, parse_string, word, emit, round, commands, parse_client_command,
}
use netevent.Text.Lexer.Fuel.{commands_fuel}
use netevent.Text.Lexer.Quote.{Lacks, escape_text, parse_string-escape_text}

-- An argument between double quotes, behind a space.
abbrev pub quoted : Bytes → Bytes
quoted a = b' ' ∷ b'"' ∷ (escape_text a ++ (b'"' ∷ []))

abbrev pub quoted_args : List Bytes → Bytes → Bytes
quoted_args [] rest = rest
quoted_args (a ∷ args) rest = b' ' ∷ b'"' ∷ (escape_text a ++ (b'"' ∷ quoted_args args rest))

-- Commands written with quoted arguments, each closed by a semicolon.
abbrev pub script : List (List Bytes) → Bytes
script [] = []
script (args ∷ cs) = quoted_args args (b';' ∷ script cs)

abbrev pub AllLack : ℕ → List Bytes → Type 0
AllLack q [] = Unit {0}
AllLack q (a ∷ args) = Lacks q a × AllLack q args

-- Every command has an argument, and no argument holds a double quote.
abbrev pub IsScript : List (List Bytes) → Type 0
IsScript [] = Unit {0}
IsScript (args ∷ cs) = (args ≢ []) × AllLack b'"' args × IsScript cs

-- Enough fuel, whatever it is.
abbrev loop : List Bytes → Bytes → List (List Bytes)
loop args s = commands (suc (length s)) false args s

loop_fuel :
    (f : ℕ) (args : List Bytes) (s : Bytes) → length s < f → commands f false args s ≡ loop args s
loop_fuel f args s h = commands_fuel f (suc (length s)) false args s h (omega arith)

abbrev after_word :
    (Bool → List Bytes → Bytes → List (List Bytes)) → List Bytes → Bytes × Bytes → List (List Bytes)
after_word again args (w, rest) = again false (args ++ (w ∷ [])) rest

abbrev after_string :
    (Bool → List Bytes → Bytes → List (List Bytes)) → List Bytes → Bytes × Bytes → List (List Bytes)
after_string again args (str, rest) = again false (args ++ (str ∷ [])) rest

first_round :
    (args : List Bytes) (text : Bytes)
    → loop args (b' ' ∷ b'"' ∷ text)
      ≡ after_string (commands (suc (suc (length text)))) args (parse_string b'"' text)
first_round args text = unfold commands round skip_white in refl

read_string :
    (again : Bool → List Bytes → Bytes → List (List Bytes)) (args : List Bytes) (a rest : Bytes)
    → Lacks b'"' a
    → after_string again args (parse_string b'"' (escape_text a ++ (b'"' ∷ rest)))
      ≡ again false (args ++ (a ∷ [])) rest
read_string again args a rest h =
    ap (after_string again args) (parse_string-escape_text b'"' a rest (inl refl) h)

loop_quoted :
    (args : List Bytes) (a rest : Bytes)
    → Lacks b'"' a
    → loop args (b' ' ∷ b'"' ∷ (escape_text a ++ (b'"' ∷ rest))) ≡ loop (args ++ (a ∷ [])) rest
loop_quoted args a rest h =
    let text = escape_text a ++ (b'"' ∷ rest) in
    first_round args text
    ∙ read_string (commands (suc (suc (length text)))) args a rest h
    ∙ loop_fuel (suc (suc (length text))) (args ++ (a ∷ [])) rest
        (omega (arith, length-append (escape_text a) (b'"' ∷ rest)))

loop-quoted_args :
    (args more : List Bytes) (rest : Bytes)
    → AllLack b'"' more
    → loop args (quoted_args more rest) ≡ loop (args ++ more) rest
loop-quoted_args args [] rest h = rw append-nil
loop-quoted_args args (a ∷ more) rest h =
    loop_quoted args a (quoted_args more rest) h.0
    ∙ loop-quoted_args (args ++ (a ∷ [])) more rest h.1
    ∙ ap (λ (l : List Bytes). loop l rest) (append_assoc args (a ∷ []) more)

loop_semicolon : (args : List Bytes) (s : Bytes) → loop args (b';' ∷ s) ≡ emit args (loop [] s)
loop_semicolon args s = unfold commands round skip_white in refl

loop-script : (cs : List (List Bytes)) → IsScript cs → loop [] (script cs) ≡ cs
loop-script [] h = unfold commands round skip_white in refl
loop-script ([] ∷ cs) h = absurd (h.0 refl)
loop-script ((a ∷ args) ∷ cs) h =
    loop-quoted_args [] (a ∷ args) (b';' ∷ script cs) h.1
    ∙ loop_semicolon (a ∷ args) (script cs)
    ∙ ap (◌∷◌ (a ∷ args)) (loop-script cs h.2)

parse_loop : (s : Bytes) → parse_client_command s ≡ loop [] s
unfolding parse_client_command
parse_loop s = refl

-- Commands written with their arguments between double quotes, backslashes doubled, and closed by
-- semicolons are read back exactly, if each has an argument and no argument holds a double quote.
pub parse_client_command-script :
    (cs : List (List Bytes)) → IsScript cs → parse_client_command (script cs) ≡ cs
parse_client_command-script cs h = parse_loop (script cs) ∙ loop-script cs h

-- An argument that needs no quotes: it is not empty, and it holds no white space, backslash,
-- semicolon or quote.
abbrev pub IsPlainByte : ℕ → Type 0
IsPlainByte c = (is_white c ≡ false) × (c ≢ b'\\') × (c ≢ b';') × (c ≢ b'"') × (c ≢ 39)

abbrev pub AllPlain : Bytes → Type 0
AllPlain [] = Unit {0}
AllPlain (c ∷ s) = IsPlainByte c × AllPlain s

abbrev pub IsPlain : Bytes → Type 0
IsPlain a = (a ≢ []) × AllPlain a

abbrev pub ArePlain : List Bytes → Type 0
ArePlain [] = Unit {0}
ArePlain (a ∷ args) = IsPlain a × ArePlain args

-- The text of arguments with a separator in front of each.
abbrev pub spaced : List Bytes → Bytes
spaced [] = []
spaced (a ∷ args) = b' ' ∷ (a ++ spaced args)

pub join_onto_more :
    (c : ℕ) (s a : Bytes) (args : List Bytes)
    → join_onto b' ' (c ∷ s) (a ∷ args) ≡ join_onto b' ' (c ∷ (s ++ (b' ' ∷ a))) args
unfolding join_onto
join_onto_more c s a args = let e : (suc (length s) == 0) ≡ false = ground arith in rw e

pub join_onto-spaced :
    (s : Bytes) (args : List Bytes)
    → s ≢ []
    → ArePlain args
    → join_onto b' ' s args ≡ s ++ spaced args
unfolding join_onto
join_onto-spaced s [] h p = sym (append-nil s)
join_onto-spaced [] (a ∷ args) h p = absurd (h refl)
join_onto-spaced (c ∷ s) (a ∷ args) h p =
    join_onto_more c s a args
    ∙ join_onto-spaced (c ∷ (s ++ (b' ' ∷ a))) args (λ e. cc) p.1
    ∙ ap (◌∷◌ c) (append_assoc s (b' ' ∷ a) (spaced args))

-- What follows an argument: the end, or white space.
abbrev Ends : Bytes → Type 0
Ends [] = Unit {0}
Ends (c ∷ s) = is_white c ≡ true

word-plain :
    (c : ℕ) (a rest : Bytes)
    → AllPlain (c ∷ a)
    → Ends rest
    → word false ((c ∷ a) ++ rest) ≡ (c ∷ a, rest)
unfolding word
word-plain c [] [] p e = ground arith
word-plain c [] (d ∷ rest) p e = ground arith
word-plain c (d ∷ a) rest p e = ground (arith, word-plain d a rest p.1 e)

-- The tests of a round at the first character of a plain argument.
round_plain :
    (again : Bool → List Bytes → Bytes → List (List Bytes)) (args : List Bytes) (c : ℕ) (s : Bytes)
    → IsPlainByte c
    → round again false args (skip_white (c ∷ s)) ≡ after_word again args (word false (c ∷ s))
unfolding round skip_white
round_plain again args c s p = ground arith

loop_word :
    (args : List Bytes) (c : ℕ) (a rest : Bytes)
    → AllPlain (c ∷ a)
    → Ends rest
    → loop args ((c ∷ a) ++ rest) ≡ loop (args ++ ((c ∷ a) ∷ [])) rest
loop_word args c a rest p e =
    let again = commands (suc (length (a ++ rest))) in
    unfold commands in
    (round_plain again args c (a ++ rest) p.0
      ∙ ap (after_word again args) (word-plain c a rest p e)
      ∙ loop_fuel (suc (length (a ++ rest))) (args ++ ((c ∷ a) ∷ [])) rest
          (omega (arith, length-append a rest)))

loop_space : (args : List Bytes) (s : Bytes) → loop args (b' ' ∷ s) ≡ loop args s
loop_space args s =
    let opened : loop args (b' ' ∷ s) ≡ commands (suc (suc (length s))) false args s =
      unfold commands skip_white in refl in
    opened ∙ loop_fuel (suc (suc (length s))) args s (omega arith)

Ends-spaced : (args : List Bytes) → Ends (spaced args)
Ends-spaced [] = tt
Ends-spaced (a ∷ args) = unfold is_white in refl

loop-spaced :
    (args more : List Bytes) → ArePlain more → loop args (spaced more) ≡ emit (args ++ more) []
loop-spaced args [] p = rw append-nil (unfold commands round skip_white in refl)
loop-spaced args ([] ∷ more) p = absurd (p.0.0 refl)
loop-spaced args ((c ∷ a) ∷ more) p =
    loop_space args ((c ∷ a) ++ spaced more)
    ∙ loop_word args c a (spaced more) p.0.1 (Ends-spaced more)
    ∙ loop-spaced (args ++ ((c ∷ a) ∷ [])) more p.1
    ∙ ap (λ (l : List Bytes). emit l []) (append_assoc args ((c ∷ a) ∷ []) more)

-- A command whose arguments are joined by spaces, as the hotkey, action and exec commands do with
-- what stands behind their names, is read back as the same arguments, if there is one and each is
-- plain: not empty, and without white space, backslash, semicolon or quote.
pub parse_client_command-join :
    (a : Bytes) (args : List Bytes)
    → ArePlain (a ∷ args)
    → parse_client_command (join b' ' (a ∷ args)) ≡ (a ∷ args) ∷ []
parse_client_command-join [] args p = absurd (p.0.0 refl)
parse_client_command-join (c ∷ a) args p =
    parse_loop (join b' ' ((c ∷ a) ∷ args))
    ∙ ap (loop []) (joined ∙ join_onto-spaced (c ∷ a) args (λ e. cc) p.1)
    ∙ loop_word [] c a (spaced args) p.0.1 (Ends-spaced args)
    ∙ loop-spaced ((c ∷ a) ∷ []) args p.1
  where
    joined : join b' ' ((c ∷ a) ∷ args) ≡ join_onto b' ' (c ∷ a) args
    joined = unfold join in refl
