-- ===== src/Text/Lexer/Quote.antt =====
-- Quoted strings.
use netevent.Prelude.{
  ℕ, ◌≡◌, ◌≢◌, ◌⊎◌, inl, inr, Bool, true, false, not, ◌&&◌, [], ◌∷◌, ◌++◌, Bytes, ◌==◌,
  if◌then◌else◌, arith, Bool-cases,
}
use native.Mathlib.Decide.{ℕ_discrete}
use netevent.Text.Lexer.{unescape, string_body, parse_string}

-- A byte does not occur in a text.
abbrev pub Lacks : ℕ → Bytes → Type 0
Lacks q [] = Unit {0}
Lacks q (c ∷ s) = (c ≢ q) × Lacks q s

Lacks-append : (q : ℕ) (a b : Bytes) → Lacks q a → Lacks q b → Lacks q (a ++ b)
Lacks-append q [] b ha hb = hb
Lacks-append q (c ∷ a) b ha hb = (ha.0, Lacks-append q a b ha.1 hb)

abbrev pub IsQuote : ℕ → Type 0
IsQuote q = (q ≡ b'"') ⊎ (q ≡ 39)

unescape-Lacks : (q c : ℕ) → IsQuote q → c ≢ q → Lacks q (unescape c)
unfolding unescape
unescape-Lacks q c (inl e) h = ground arith
unescape-Lacks q c (inr e) h = ground arith

differs : (c q : ℕ) → (c == q) ≡ false → c ≢ q
differs c q h = ground arith

string_body-Lacks : (q : ℕ) (e : Bool) (s : Bytes) → IsQuote q → Lacks q (string_body q e s).0
unfolding string_body
string_body-Lacks q e [] h = tt
string_body-Lacks q e (c ∷ s) h = elim (Bool-cases (c == q)) [
  | inl close ↦ rw close tt
  | inr other ↦ rw other (
      Lacks-append q _ _ (now e (differs c q other))
        (string_body-Lacks q (not e && c == b'\\') s h))
]
  where
    now : (x : Bool) → c ≢ q → Lacks q (if x then unescape c else if c == b'\\' then [] else c ∷ [])
    now true n = unescape-Lacks q c h n
    now false n = ground arith

-- No string that `parseString` returns holds its own quote character: a backslash in front of the
-- quote does not keep it from ending the string.
pub parse_string-Lacks : (q : ℕ) (s : Bytes) → IsQuote q → Lacks q (parse_string q s).0
unfolding parse_string
parse_string-Lacks q s h = string_body-Lacks q false s h

-- A text with its backslashes doubled.
abbrev pub escape_text : Bytes → Bytes
escape_text [] = []
escape_text (c ∷ s) = if c == b'\\' then b'\\' ∷ b'\\' ∷ escape_text s else c ∷ escape_text s

string_body_char :
    (q c : ℕ) (s : Bytes)
    → c ≢ q
    → c ≢ b'\\'
    → string_body q false (c ∷ s) ≡ (c ∷ (string_body q false s).0, (string_body q false s).1)
unfolding string_body
string_body_char q c s h k = ground arith

string_body_backslash :
    (q : ℕ) (s : Bytes)
    → IsQuote q
    → string_body q false (b'\\' ∷ b'\\' ∷ s)
      ≡ (b'\\' ∷ (string_body q false s).0, (string_body q false s).1)
unfolding string_body
string_body_backslash q s (inl e) = ground arith
string_body_backslash q s (inr e) = ground arith

string_body-escape_text :
    (q : ℕ) (a rest : Bytes)
    → IsQuote q
    → Lacks q a
    → string_body q false (escape_text a ++ (q ∷ rest)) ≡ (a, rest)
string_body-escape_text q [] rest h l = unfold string_body in ground arith
string_body-escape_text q (c ∷ a) rest h l = elim (ℕ_discrete c b'\\') [
  | yes e ↦ ground (
    arith,
    string_body_backslash q (escape_text a ++ (q ∷ rest)) h,
    string_body-escape_text q a rest h l.1,
  )
  | no n ↦ ground (
    arith,
    string_body_char q c (escape_text a ++ (q ∷ rest)) l.0 n,
    string_body-escape_text q a rest h l.1,
  )
]

-- A text without the quote character, its backslashes doubled, is read back from between quotes.
pub parse_string-escape_text :
    (q : ℕ) (a rest : Bytes)
    → IsQuote q
    → Lacks q a
    → parse_string q (escape_text a ++ (q ∷ rest)) ≡ (a, rest)
unfolding parse_string
parse_string-escape_text q a rest h l = string_body-escape_text q a rest h l
