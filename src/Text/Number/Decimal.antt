-- ===== src/Text/Number/Decimal.antt =====
-- Canonical decimal numerals are read back: the digits of a number as `printf` writes them, with no
-- leading zero, and a `-` in front for a negative one.
use netevent.Prelude.{
  ℕ, ◌+◌, ◌-◌, ◌*◌, ◌%◌, ◌^◌, ◌≤◌, ◌<◌, ◌≡◌, ◌⊎◌, inl, inr, refl, ap, ◌∙◌, Bool, true, false, List,
  [], ◌∷◌, ◌++◌, some, Bytes, length, arith, if◌then◌else◌, ◌==◌,
}
use netevent.Text.Number.{
  decimal_digit, read_digits, parse_long_parse, parse_unsigned, skip_blanks, parse_long_do,
  parse_signed, decrement, parse_long, parse_ulong,
}

-- Digits as the bytes '0' to '9', most significant first.
abbrev pub render : List ℕ → Bytes
render [] = []
render (d ∷ ds) = (d + b'0') ∷ render ds

abbrev pub value_from : ℕ → List ℕ → ℕ
value_from out [] = out
value_from out (d ∷ ds) = value_from (10 * out + d) ds

abbrev pub AllDigits : List ℕ → Type 0
AllDigits [] = Unit {0}
AllDigits (d ∷ ds) = (d < 10) × AllDigits ds

-- A numeral with no leading zero.
abbrev pub IsNumeral : List ℕ → Type 0
IsNumeral [] = ⊥
IsNumeral (d ∷ ds) = AllDigits (d ∷ ds) × ((0 < d) ⊎ (ds ≡ []))

-- `maxlen` covers exactly the digits, or at least them and the string ends there.
abbrev pub Covers : ℕ → List ℕ → Bytes → Type 0
Covers n ds rest = (n ≡ length ds) ⊎ ((rest ≡ []) × (length ds ≤ n))

value_from-ge : (out : ℕ) (ds : List ℕ) → out ≤ value_from out ds
value_from-ge out [] = omega arith
value_from-ge out (d ∷ ds) = omega (arith, value_from-ge (10 * out + d) ds)

decimal_digit_lem : (d : ℕ) → d < 10 → decimal_digit (d + b'0') ≡ some d
decimal_digit_lem d h = ground arith

Covers-tail :
    (n d : ℕ) (ds : List ℕ) (rest : Bytes)
    → Covers n (d ∷ ds) rest
    → (0 < n) × Covers (n - 1) ds rest
Covers-tail n d ds rest (inl e) = (omega arith, inl (omega arith))
Covers-tail n d ds rest (inr e) = (omega arith, inr (e.0, omega arith))

read_digits-render :
    (ds : List ℕ) (rest : Bytes) (n out : ℕ)
    → AllDigits ds
    → value_from out ds < 2 ^ 64
    → Covers n ds rest
    → read_digits 10 decimal_digit (render ds ++ rest) n out ≡ some (value_from out ds)
unfolding read_digits
read_digits-render [] rest n out a v (inl e) =
    elim rest as (λ r. read_digits 10 decimal_digit r n out ≡ some out) [
      | [] ↦ refl
      | c ∷ s ↦ ground arith
    ]
read_digits-render [] [] n out a v (inr e) = refl
read_digits-render [] (c ∷ s) n out a v (inr e) = absurd (cc e.0)
read_digits-render (d ∷ ds) rest n out a v c =
    let e : (10 * out + d) % 2 ^ 64 ≡ 10 * out + d = fits in
    rw (decimal_digit_lem d a.0, read_digits)
      (rw e (
        ground (
          arith,
          Covers-tail n d ds rest c,
          read_digits-render ds rest (n - 1) (10 * out + d) a.1 v (Covers-tail n d ds rest c).1,
        )))
  where
    fits : (10 * out + d) % 2 ^ 64 ≡ 10 * out + d
    fits = omega (arith, value_from-ge (10 * out + d) ds)

-- A numeral below 2^64 is read as its value by the decimal loop of `parseLongParse`.
parse_long_parse-render :
    (ds : List ℕ) (rest : Bytes) (n : ℕ)
    → IsNumeral ds
    → value_from 0 ds < 2 ^ 64
    → Covers n ds rest
    → parse_long_parse (render ds ++ rest) n ≡ some (value_from 0 ds)
unfolding parse_long_parse
parse_long_parse-render [] rest n h v c = absurd h
parse_long_parse-render (d ∷ ds) rest n (a, inl pos) v c =
    ground (arith, read_digits-render (d ∷ ds) rest n 0 a v c)
parse_long_parse-render (d ∷ []) rest n (a, inr _) v (inl e) =
    ground (arith, read_digits-render (d ∷ []) rest n 0 a v (inl e))
parse_long_parse-render (d ∷ []) [] n (a, inr _) v (inr e) =
    ground (arith, read_digits-render (d ∷ []) [] n 0 a v (inr e))
parse_long_parse-render (d ∷ []) (x ∷ rest) n (a, inr _) v (inr e) = absurd (cc e.0)
parse_long_parse-render (d ∷ d' ∷ ds) rest n (a, inr e) v c = absurd (cc e)

parse_unsigned-render :
    (negative : Bool) (ds : List ℕ) (rest : Bytes) (n : ℕ)
    → IsNumeral ds
    → value_from 0 ds < 2 ^ 64
    → Covers n ds rest
    → parse_unsigned negative (render ds ++ rest) n
      ≡ some (if negative then (2 ^ 64 - value_from 0 ds) % 2 ^ 64 else value_from 0 ds)
unfolding parse_unsigned
parse_unsigned-render negative [] rest n h v c = absurd h
parse_unsigned-render negative (d ∷ ds) rest n h v c =
    rw (parse_long_parse-render (d ∷ ds) rest n h v c, parse_unsigned)
      (ground (arith, h.0, Covers-tail n d ds rest c))

skip_blanks_none : (c : ℕ) (s : Bytes) (n : ℕ) → 32 < c → skip_blanks (c ∷ s) n ≡ (c ∷ s, n)
unfolding skip_blanks
skip_blanks_none c s n h = ground arith

parse_long_do_none :
    (c : ℕ) (s : Bytes) (n : ℕ) (signed : Bool)
    → 32 < c
    → 0 < n
    → parse_long_do (c ∷ s) n signed ≡ parse_signed signed (c ∷ s, n)
unfolding parse_long_do
parse_long_do_none c s n signed h l =
    let e : (n == 0) ≡ false = ground arith in rw (e, skip_blanks_none c s n h)

parse_signed_digit :
    (signed : Bool) (d : ℕ) (s : Bytes) (n : ℕ)
    → d < 10
    → parse_signed signed ((d + b'0') ∷ s, n) ≡ parse_unsigned false ((d + b'0') ∷ s) n
parse_signed_digit true d s n h = unfold parse_signed in ground arith
parse_signed_digit false d s n h = unfold parse_signed in ground arith

first_digit : (d : ℕ) (ds : List ℕ) → IsNumeral (d ∷ ds) → d < 10
first_digit d ds h = h.0.0

parse_long_do-render :
    (signed : Bool) (ds : List ℕ) (rest : Bytes) (n : ℕ)
    → IsNumeral ds
    → value_from 0 ds < 2 ^ 64
    → Covers n ds rest
    → parse_long_do (render ds ++ rest) n signed ≡ some (value_from 0 ds)
parse_long_do-render signed [] rest n h v c = absurd h
parse_long_do-render signed (d ∷ ds) rest n h v c =
    parse_long_do_none (d + b'0') (render ds ++ rest) n signed (omega arith)
      (Covers-tail n d ds rest c).0
    ∙ parse_signed_digit signed d (render ds ++ rest) n (first_digit d ds h)
    ∙ parse_unsigned-render false (d ∷ ds) rest n h v c

-- `parseULong` reads a numeral with no leading zero as its value, if that is below 2^64 and the
-- numeral ends at the given length or at the end of the string.
pub parse_ulong-render :
    (ds : List ℕ) (rest : Bytes) (n : ℕ)
    → IsNumeral ds
    → value_from 0 ds < 2 ^ 64
    → Covers n ds rest
    → parse_ulong (render ds ++ rest) n ≡ some (value_from 0 ds)
unfolding parse_ulong
parse_ulong-render ds rest n h v c = parse_long_do-render false ds rest n h v c

-- `parseLong` reads such a numeral as its value, and the numeral behind a `-` as the 64-bit pattern
-- of the negated value.
pub parse_long-render :
    (ds : List ℕ) (rest : Bytes) (n : ℕ)
    → IsNumeral ds
    → value_from 0 ds < 2 ^ 64
    → n < 2 ^ 64
    → Covers n ds rest
    → (parse_long (render ds ++ rest) n ≡ some (value_from 0 ds))
      × (parse_long (b'-' ∷ (render ds ++ rest)) (n + 1)
          ≡ some ((2 ^ 64 - value_from 0 ds) % 2 ^ 64))
unfolding parse_long
parse_long-render ds rest n h v l c =
    let back : decrement (n + 1) ≡ n = omega arith in
    let signed : parse_signed true (b'-' ∷ (render ds ++ rest), n + 1)
        ≡ parse_unsigned true (render ds ++ rest) (decrement (n + 1)) =
      unfold parse_signed in refl in
    (
      parse_long_do-render true ds rest n h v c,
      parse_long_do_none b'-' (render ds ++ rest) (n + 1) true (omega arith) (omega arith)
          ∙ signed
          ∙ ap (parse_unsigned true (render ds ++ rest)) back
          ∙ parse_unsigned-render true ds rest n h v c,
    )
