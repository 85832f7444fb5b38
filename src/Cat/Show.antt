-- ===== src/Cat/Show.antt =====
-- `netevent show` (main.cpp, `cmd_show` behind its options): events are printed, one line each, up to
-- a count; and what the hotkey commands read in such a line.
use netevent.Prelude.{
  ℕ, zero, suc, ◌+◌, ◌-◌, ◌*◌, ◌/◌, ◌%◌, ◌^◌, ◌≤◌, ◌<◌, ◌≡◌, refl, ap, ◌∙◌, ◌⊎◌, inl, inr, Bool,
  true, false, not, List, [], ◌∷◌, ◌++◌, Bytes, length, take, ltb, leb, arith, Bool-cases,
  if◌then◌else◌,
}
use mathlib.Core.Path.{ap₂}
use netevent.Text.Number.Decimal.{value_from, AllDigits, IsNumeral}
use netevent.Text.Event.{ok, parse_spec}
use netevent.Text.Event.Show.{show, pattern32, parse_spec-show}
use netevent.Packet.{InputEvent}
use netevent.Device.In.{InDevice}
use netevent.Device.In.Reads.{
  Answer, RawEvent, Stop, gone, broken, Got, got, refused, read, event_of,
}
use netevent.Cat.{Cat, returned, threw, waits, read_error, stops, sending}
use netevent.Cat.Events.{answers, read_end}

-- The digits of a number, with at most `f` of them behind the first; `%u` and `%i` of `printf`.
unfoldable digits_from : ℕ → ℕ → List ℕ → List ℕ
digits_from zero n ds = n ∷ ds
digits_from (suc f) n ds =
    let more = digits_from f (n / 10) (n % 10 ∷ ds) in if ltb n 10 then n ∷ ds else more

-- A number of 32 bits has at most ten digits.
abbrev digits : ℕ → List ℕ
digits n = digits_from 9 n []

-- A line without its line feed; the value is signed.
unfoldable pub line_of : InputEvent → Bytes
unfolding digits_from
line_of ev =
    show ev.type (digits ev.code) (leb (2 ^ 31) ev.value)
      (digits (if leb (2 ^ 31) ev.value then 2 ^ 32 - ev.value else ev.value))

abbrev pub printed : InputEvent → Bytes
printed ev = line_of ev ++ (b'\n' ∷ [])

-- One round: the line and the next rounds.
unfoldable pub show_round : Cat → Got → Cat
unfolding line_of
show_round rest (got ev true) = sending (printed ev) rest
show_round rest (got ev false) = stops (returned 0)
show_round rest (refused d e) = stops (threw (read_error e))

-- `while (count++ < maxcount && dev.read(&ev))`, with the number of rounds that are left.
unfoldable pub show_events : ℕ → InDevice → List Answer → Cat
unfolding show_round read
show_events zero d l = stops (returned 0)
show_events (suc n) d [] = stops waits
show_events (suc n) d (a ∷ l) = show_round (show_events n d l) (read a d)

abbrev limit : ℕ → ℕ
limit zero = 10
limit (suc f) = 10 * limit f

value_from-digits_from :
    (f n : ℕ) (ds : List ℕ) → n < limit f → value_from 0 (digits_from f n ds) ≡ value_from n ds
unfolding digits_from
value_from-digits_from zero n ds h = ap (λ (k : ℕ). value_from k ds) (omega arith)
value_from-digits_from (suc f) n ds h = elim (Bool-cases (ltb n 10)) [
  | inl e ↦ rw e (ap (λ (k : ℕ). value_from k ds) (omega arith))
  | inr e ↦ rw e (
      value_from-digits_from f (n / 10) (n % 10 ∷ ds) (omega arith)
      ∙ ap (λ (k : ℕ). value_from k ds) (omega arith))
]

digits_from-IsNumeral :
    (f n : ℕ) (ds : List ℕ)
    → n < limit f
    → AllDigits ds
    → (0 < n) ⊎ (ds ≡ [])
    → IsNumeral (digits_from f n ds)
unfolding digits_from
digits_from-IsNumeral zero n ds h a z = ((h, a), z)
digits_from-IsNumeral (suc f) n ds h a z = elim (Bool-cases (ltb n 10)) [
  | inl e ↦ rw e ((ground arith, a), z)
  | inr e ↦ rw e (
      digits_from-IsNumeral f (n / 10) (n % 10 ∷ ds) (omega arith) (omega arith, a)
        (inl (ground arith)))
]

length-digits_from : (f n : ℕ) (ds : List ℕ) → length (digits_from f n ds) ≤ suc f + length ds
unfolding digits_from
length-digits_from zero n ds = omega arith
length-digits_from (suc f) n ds = elim (Bool-cases (ltb n 10)) [
  | inl e ↦ rw e (omega arith)
  | inr e ↦ rw e (omega (arith, length-digits_from f (n / 10) (n % 10 ∷ ds)))
]

value_from-digits : (n : ℕ) → n < 2 ^ 32 → value_from 0 (digits n) ≡ n
value_from-digits n h = value_from-digits_from 9 n [] (omega arith)

-- The sign and the size of a value are those of its pattern.
pattern32-digits :
    (v : ℕ) (neg : Bool)
    → leb (2 ^ 31) v ≡ neg
    → v < 2 ^ 32
    → pattern32 neg (digits (if neg then 2 ^ 32 - v else v)) ≡ v
pattern32-digits v true e h =
    let back : value_from 0 (digits (2 ^ 32 - v)) ≡ 2 ^ 32 - v =
      value_from-digits (2 ^ 32 - v) (ground arith) in
    rw back (ground arith)
pattern32-digits v false e h = value_from-digits v h

size_small :
    (v : ℕ) (neg : Bool)
    → leb (2 ^ 31) v ≡ neg
    → v < 2 ^ 32
    → (if neg then 2 ^ 32 - v else v) < 2 ^ 32
size_small v true e h = ground arith
size_small v false e h = h

-- The line of an event of one of the first six types is read as the event.
parse_spec-line_of :
    (ev : InputEvent)
    → ev.type < 6
    → ev.code < 2 ^ 16
    → ev.value < 2 ^ 32
    → parse_spec (line_of ev) ≡ ok (record { type = ev.type; code = ev.code; value = ev.value })
unfolding line_of
parse_spec-line_of ev t c v =
    let neg : Bool = leb (2 ^ 31) ev.value in
    let size : ℕ = if neg then 2 ^ 32 - ev.value else ev.value in
    let small : size < 2 ^ 32 = size_small ev.value neg refl v in
    let code : value_from 0 (digits ev.code) ≡ ev.code = value_from-digits ev.code (omega arith) in
    let value : value_from 0 (digits size) ≡ size = value_from-digits size small in
    parse_spec-show ev.type (digits ev.code) neg (digits size) t
      (digits_from-IsNumeral 9 ev.code [] (omega arith) tt (inr refl)) (omega (arith, code))
      (digits_from-IsNumeral 9 size [] (omega arith) tt (inr refl)) (omega (arith, value))
      (omega (arith, length-digits_from 9 size []))
    ∙ ap₂ (λ (k x : ℕ). ok (record { type = ev.type; code = k; value = x })) code
        (pattern32-digits ev.value neg refl v)

-- The lines are those of events, in their order, and the hotkey commands read each as its event.
abbrev pub Shows : List Bytes → List RawEvent → Type 0
Shows [] [] = Unit {0}
Shows [] (raw ∷ raws) = ⊥
Shows (l ∷ ls) [] = ⊥
Shows (l ∷ ls) (raw ∷ raws) =
    ((l ≡ printed (event_of raw))
      × (parse_spec (line_of (event_of raw))
          ≡ ok (record {
            type = (event_of raw).type;
            code = (event_of raw).code;
            value = (event_of raw).value;
          })))
    × Shows ls raws

abbrev pub AllNamed : List RawEvent → Type 0
AllNamed [] = Unit {0}
AllNamed (raw ∷ raws) = ((event_of raw).type < 6) × AllNamed raws

shown :
    (c : Cat) (ev : InputEvent) (eof : Bool)
    → eof ≡ false
    → show_round c (got ev (not eof)) ≡ sending (printed ev) c
unfolding show_round
shown c ev eof e = rw (e, not) refl

-- `netevent show` of a device that delivers events of the first six types and then stops: it prints
-- the first of them, up to the count, one line each, and the hotkey commands read every line as the
-- type, code and value of its event. It returns 0 behind as many lines as asked for, and throws if
-- the device stops before.
pub show_events-Shows :
    (max : ℕ) (d : InDevice) (raws : List RawEvent) (s : Stop)
    → d.eof ≡ false
    → AllNamed raws
    → Shows (show_events max d (answers raws s)).sent (take max raws)
      × ((show_events max d (answers raws s)).ended
          ≡ (if leb max (length raws) then returned 0 else threw (read_error (read_end s))))
unfolding show_events show_round read
show_events-Shows zero d raws s e h = (tt, ground arith)
show_events-Shows (suc n) d [] gone e h = (tt, ground arith)
show_events-Shows (suc n) d [] (broken x) e h = (tt, ground arith)
show_events-Shows (suc n) d (raw ∷ raws) s e h =
    let (ls, ended) = show_events-Shows n d raws s e h.1 in
    let count : leb (suc n) (suc (length raws)) ≡ leb n (length raws) = ground arith in
    let line : parse_spec (line_of (event_of raw)) ≡ _ =
      parse_spec-line_of (event_of raw) h.0 (omega arith) (omega arith) in
    rw (shown (show_events n d (answers raws s)) (event_of raw) d.eof e, count)
      (((refl, line), ls), ended)
