-- ===== src/Text/Event/Show.antt =====
-- The lines of `netevent show` as event specifications (main.cpp, `cmd_show`: "%s:%u:%i").
use netevent.Prelude.{
  ℕ, zero, suc, ◌-◌, ◌%◌, ◌^◌, ◌≤◌, ◌<◌, ◌≡◌, ◌≢◌, ◌⊎◌, inl, inr, refl, sym, ap, ◌∙◌, Bool, true,
  false, List, [], ◌∷◌, ◌++◌, some, Bytes, length, arith, append-nil, Option-cases, ◌==◌, ltb,
}
use netevent.Text.Number.{parse_long, size_max}
use netevent.Text.Number.Decimal.{
  render, value_from, IsNumeral, AllDigits, parse_ulong-render, parse_long-render,
}
use netevent.Text.Event.{
  unsigned_max, ev2string, string2ev, split_colon, spec_value, spec_code, spec_type, parse_spec, ok,
  EventSpec,
}

-- What `%i` prints: a numeral, with a sign for a negative value.
abbrev pub signed : Bool → List ℕ → Bytes
signed true ds = b'-' ∷ render ds
signed false ds = render ds

-- The 32-bit pattern of that value.
abbrev pub pattern32 : Bool → List ℕ → ℕ
pattern32 true ds = (2 ^ 32 - value_from 0 ds) % 2 ^ 32
pattern32 false ds = value_from 0 ds

-- What `cmd_show` prints for an event, without the newline; `cs` and `vs` are the digits.
abbrev pub show : ℕ → List ℕ → Bool → List ℕ → Bytes
show type cs neg vs = ev2string type ++ (b':' ∷ (render cs ++ (b':' ∷ signed neg vs)))

split_colon-render :
    (ds : List ℕ) (rest : Bytes)
    → AllDigits ds
    → split_colon (render ds ++ (b':' ∷ rest)) ≡ some (render ds, rest)
unfolding split_colon
split_colon-render [] rest h = refl
split_colon-render (d ∷ ds) rest h = ground (arith, split_colon-render ds rest h.1)

length-render : (ds : List ℕ) → length (render ds) ≡ length ds
length-render [] = refl
length-render (d ∷ ds) = ap suc (length-render ds)

IsNumeral-AllDigits : (ds : List ℕ) → IsNumeral ds → AllDigits ds
IsNumeral-AllDigits [] h = absurd h
IsNumeral-AllDigits (d ∷ ds) h = h.0

parse_long_whole :
    (ds : List ℕ)
    → IsNumeral ds
    → value_from 0 ds < 2 ^ 32
    → length ds < 2 ^ 32
    → (parse_long (render ds) size_max ≡ some (value_from 0 ds))
      × (parse_long (b'-' ∷ render ds) size_max ≡ some ((2 ^ 64 - value_from 0 ds) % 2 ^ 64))
parse_long_whole ds h v l =
    let e = append-nil (render ds) in
    (
      rw e at
          (parse_long-render ds [] size_max h (omega arith) (omega arith)
            (inr (refl, omega arith))).0,
      rw e at
          (parse_long-render ds [] (size_max - 1) h (omega arith) (omega arith)
            (inr (refl, omega arith))).1,
    )

spec_value-signed :
    (type code : ℕ) (neg : Bool) (vs : List ℕ)
    → IsNumeral vs
    → value_from 0 vs < 2 ^ 32
    → length vs < 2 ^ 32
    → spec_value type code (signed neg vs)
      ≡ ok (record { type = type; code = code; value = pattern32 neg vs })
unfolding spec_value
spec_value-signed type code true vs h v l =
    rw ((parse_long_whole vs h v l).1, spec_value)
      (ap (λ (n : ℕ). ok (record { type = type; code = code; value = n })) (omega arith))
spec_value-signed type code false vs h v l =
    rw ((parse_long_whole vs h v l).0, spec_value)
      (ap (λ (n : ℕ). ok (record { type = type; code = code; value = n })) (omega arith))

spec_code-render :
    (type : ℕ) (cs : List ℕ) (rest : Bytes) (neg : Bool) (vs : List ℕ)
    → IsNumeral cs
    → value_from 0 cs ≤ 0xffff
    → IsNumeral vs
    → value_from 0 vs < 2 ^ 32
    → length vs < 2 ^ 32
    → spec_code type (render cs ++ rest) (length (render cs)) (signed neg vs)
      ≡ ok (record { type = type; code = value_from 0 cs; value = pattern32 neg vs })
unfolding spec_code
spec_code-render type cs rest neg vs hc vc hv v l =
    let e : ltb 0xffff (value_from 0 cs) ≡ false = ground arith in
    rw
      (
        parse_ulong-render cs rest (length (render cs)) hc (omega arith) (inl (length-render cs)),
        spec_code,
      )
      (rw e (spec_value-signed type (value_from 0 cs) neg vs hv v l))

-- The names of the types that stand in the table at their own number.
type_name_read :
    (type : ℕ) (rest : Bytes)
    → type < 6
    → (split_colon (ev2string type ++ (b':' ∷ rest)) ≡ some (ev2string type, rest))
      × (string2ev (ev2string type ++ (b':' ∷ rest)) (length (ev2string type)) ≡ type)
unfolding split_colon ev2string string2ev
type_name_read zero rest h = (refl, refl)
type_name_read (suc zero) rest h = (refl, refl)
type_name_read (suc (suc zero)) rest h = (refl, refl)
type_name_read (suc (suc (suc zero))) rest h = (refl, refl)
type_name_read (suc (suc (suc (suc zero)))) rest h = (refl, refl)
type_name_read (suc (suc (suc (suc (suc zero))))) rest h = (refl, refl)
type_name_read (suc (suc (suc (suc (suc (suc n)))))) rest h = absurd (omega arith)

spec_type_read :
    (type : ℕ) (spec : Bytes) (n : ℕ) (behind : Bytes) (m : ℕ) (text : Bytes)
    → type < 6
    → string2ev spec n ≡ type
    → spec_type spec n behind m text ≡ spec_code type behind m text
unfolding spec_type
spec_type_read type spec n behind m text t e = rw e (ground arith)

length-signed : (neg : Bool) (vs : List ℕ) → IsNumeral vs → (length (signed neg vs) == 0) ≡ false
length-signed true vs h = ground arith
length-signed false [] h = absurd h
length-signed false (d ∷ ds) h = ground arith

-- A line that `netevent show` prints for one of the first six event types is an event specification
-- that the hotkey commands read back as the same type, code and 32-bit value, if the code fits 16
-- bits and the value is printed in full.
pub parse_spec-show :
    (type : ℕ) (cs : List ℕ) (neg : Bool) (vs : List ℕ)
    → type < 6
    → IsNumeral cs
    → value_from 0 cs ≤ 0xffff
    → IsNumeral vs
    → value_from 0 vs < 2 ^ 32
    → length vs < 2 ^ 32
    → parse_spec (show type cs neg vs)
      ≡ ok (record { type = type; code = value_from 0 cs; value = pattern32 neg vs })
unfolding parse_spec
parse_spec-show type cs neg vs t hc vc hv v l =
    let rest = render cs ++ (b':' ∷ signed neg vs) in
    let named = type_name_read type rest t in
    let split = split_colon-render cs (signed neg vs) (IsNumeral-AllDigits cs hc) in
    rw (named.0, parse_spec)
      (rw (split, length-signed neg vs hv)
        (spec_type_read type _ _ rest _ _ t named.1
          ∙ spec_code-render type cs (b':' ∷ signed neg vs) neg vs hc vc hv v l))

-- The name printed for any other type stands for another number, or for none.
type_name_misread :
    (type : ℕ) (rest : Bytes)
    → 6 ≤ type
    → (split_colon (ev2string type ++ (b':' ∷ rest)) ≡ some (ev2string type, rest))
      × ((string2ev (ev2string type ++ (b':' ∷ rest)) (length (ev2string type)) ≡ unsigned_max)
          ⊎ (string2ev (ev2string type ++ (b':' ∷ rest)) (length (ev2string type)) ≢ type))
unfolding split_colon ev2string string2ev
type_name_misread zero rest h = absurd (omega arith)
type_name_misread (suc zero) rest h = absurd (omega arith)
type_name_misread (suc (suc zero)) rest h = absurd (omega arith)
type_name_misread (suc (suc (suc zero))) rest h = absurd (omega arith)
type_name_misread (suc (suc (suc (suc zero)))) rest h = absurd (omega arith)
type_name_misread (suc (suc (suc (suc (suc zero))))) rest h = absurd (omega arith)
type_name_misread (suc (suc (suc (suc (suc (suc zero)))))) rest h = (refl, inr (omega arith))
type_name_misread (suc (suc (suc (suc (suc (suc (suc zero))))))) rest h = (refl, inr (omega arith))
type_name_misread (suc (suc (suc (suc (suc (suc (suc (suc zero)))))))) rest h =
    (refl, inr (omega arith))
type_name_misread (suc (suc (suc (suc (suc (suc (suc (suc (suc zero))))))))) rest h =
    (refl, inr (omega arith))
type_name_misread (suc (suc (suc (suc (suc (suc (suc (suc (suc (suc zero)))))))))) rest h =
    (refl, inr (omega arith))
type_name_misread (suc (suc (suc (suc (suc (suc (suc (suc (suc (suc (suc zero))))))))))) rest h =
    (refl, inr (omega arith))
type_name_misread (suc (suc (suc (suc (suc (suc (suc (suc (suc (suc (suc (suc n)))))))))))) rest h =
    (refl, inl refl)

spec_type-type :
    (spec : Bytes) (n : ℕ) (behind : Bytes) (m : ℕ) (text : Bytes) (e : EventSpec)
    → spec_type spec n behind m text ≡ ok e
    → (e.type ≡ string2ev spec n) × (string2ev spec n ≢ unsigned_max)
unfolding spec_type spec_code spec_value
spec_type-type spec n behind m text e h = ground arith

parse_spec-type :
    (spec before behind : Bytes) (e : EventSpec)
    → split_colon spec ≡ some (before, behind)
    → parse_spec spec ≡ ok e
    → (e.type ≡ string2ev spec (length before)) × (string2ev spec (length before) ≢ unsigned_max)
unfolding parse_spec
parse_spec-type spec before behind e s h = elim (Option-cases (split_colon behind)) [
  | inl q ↦ ground arith
  | inr ((middle, text), q) ↦
      ground (arith, spec_type-type spec (length before) behind (length middle) text e)
]

-- A line that it prints for any other type is refused, or is read as another type: the name is
-- taken by position in the table, and the numbers of the later entries differ from their positions.
pub parse_spec-show_ne :
    (type : ℕ) (cs : List ℕ) (neg : Bool) (vs : List ℕ) (e : EventSpec)
    → 6 ≤ type
    → parse_spec (show type cs neg vs) ≡ ok e
    → e.type ≢ type
parse_spec-show_ne type cs neg vs e t h same =
    let rest = render cs ++ (b':' ∷ signed neg vs) in
    let (split, misread) = type_name_misread type rest t in
    let (is, known) = parse_spec-type (show type cs neg vs) (ev2string type) rest e split h in
    elim misread [ inl unknown ↦ known unknown | inr other ↦ other (sym is ∙ same) ]
