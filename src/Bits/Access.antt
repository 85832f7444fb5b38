-- ===== src/Bits/Access.antt =====
-- Reading and writing single bits.
use netevent.Prelude.{
  ℕ, zero, suc, ◌/◌, ◌%◌, ◌<◌, ◌≡◌, refl, ap, sym, ◌∙◌, Bool, true, false, not, ◌&&◌, [], ◌∷◌,
  Bytes, length, get_or, set, ltb, ◌==◌, ltb→lt, if◌then◌else◌, get_or-set_self, get_or-set_ne,
  arith, length-set,
}
use native.Mathlib.Decide.{ℕ_discrete}
use netevent.Bits.{Bits, IsValid, AllBytes, byte_size, test_byte, assign_byte, get_bit, set_bit}

-- A test passes at every number under a bound.
passes : (ℕ → Bool) → ℕ → Bool
passes test zero = true
passes test (suc n) = if test n then passes test n else false

passes-at : (test : ℕ → Bool) (bound i : ℕ) → i < bound → passes test bound ≡ true → test i ≡ true
unfolding passes
passes-at test zero i i_fits h = absurd (omega arith)
passes-at test (suc n) i i_fits h = elim (ℕ_discrete i n) [
  | yes e ↦ ground (arith, ap test e)
  | no e ↦ ground (arith, λ (l : i < n). passes-at test n i l)
]

same : Bool → Bool → Bool
same true b = b
same false b = not b

same_sound : (a b : Bool) → same a b ≡ true → a ≡ b
unfolding same
same_sound true b h = sym h
same_sound false true h = h
same_sound false false h = refl

-- What a byte's assignment must do, checked for every byte and position.
entry : ℕ → ℕ → ℕ → Bool
entry old k j =
    ltb (assign_byte old k true) 256
    && ltb (assign_byte old k false) 256
    && same (test_byte (assign_byte old k true) j) (if j == k then true else test_byte old j)
    && same (test_byte (assign_byte old k false) j) (if j == k then false else test_byte old j)

-- The two inner loops of the table.
at_position : ℕ → ℕ → Bool
at_position old k = passes (entry old k) 8

at_byte : ℕ → Bool
at_byte old = passes (at_position old) 8

table : passes at_byte 256 ≡ true
unfolding passes at_byte at_position entry same test_byte assign_byte
table = refl

entry_holds : (old k j : ℕ) → old < 256 → k < 8 → j < 8 → entry old k j ≡ true
entry_holds old k j ho hk hj =
    let row : at_byte old ≡ true = passes-at at_byte 256 old ho table in
    let place : at_position old k ≡ true =
      passes-at (at_position old) 8 k hk (unfold at_byte in row) in
    passes-at (entry old k) 8 j hj (unfold at_position in place)

and_parts :
    (a b c d : Bool) → (a && b && c && d) ≡ true → (a ≡ true) × (b ≡ true) × (c ≡ true) × (d ≡ true)
and_parts a b c d h = ground arith

-- The four parts of an entry.
record Entry (old k j : ℕ) : Type 0 where
  on_byte : assign_byte old k true < 256
  off_byte : assign_byte old k false < 256
  on_bit : test_byte (assign_byte old k true) j ≡ (if j == k then true else test_byte old j)
  off_bit : test_byte (assign_byte old k false) j ≡ (if j == k then false else test_byte old j)

table-Entry : (old k j : ℕ) → old < 256 → k < 8 → j < 8 → Entry old k j
unfolding entry
table-Entry old k j ho hk hj =
    let parts =
      and_parts (ltb (assign_byte old k true) 256) (ltb (assign_byte old k false) 256)
        (same (test_byte (assign_byte old k true) j) (if j == k then true else test_byte old j))
        (same (test_byte (assign_byte old k false) j) (if j == k then false else test_byte old j))
        (entry_holds old k j ho hk hj) in
    record {
      on_byte = ltb→lt _ _ parts.0;
      off_byte = ltb→lt _ _ parts.1;
      on_bit = same_sound _ _ parts.2;
      off_bit = same_sound _ _ parts.3;
    }

assign-lt : (old k : ℕ) (on : Bool) → old < 256 → k < 8 → assign_byte old k on < 256
assign-lt old k true ho hk = (table-Entry old k 0 ho hk (omega arith)).on_byte
assign-lt old k false ho hk = (table-Entry old k 0 ho hk (omega arith)).off_byte

test_byte-assign_byte :
    (old k j : ℕ) (on : Bool)
    → old < 256
    → k < 8
    → j < 8
    → test_byte (assign_byte old k on) j ≡ (if j == k then on else test_byte old j)
test_byte-assign_byte old k j true ho hk hj = (table-Entry old k j ho hk hj).on_bit
test_byte-assign_byte old k j false ho hk hj = (table-Entry old k j ho hk hj).off_bit

get_or-AllBytes : (b : Bytes) (i : ℕ) → AllBytes b → get_or b i 0 < 256
get_or-AllBytes [] i h = omega arith
get_or-AllBytes (x ∷ b) zero h = h.0
get_or-AllBytes (x ∷ b) (suc i) h = get_or-AllBytes b i h.1

set-AllBytes : (b : Bytes) (i v : ℕ) → v < 256 → AllBytes b → AllBytes (set b i v)
set-AllBytes [] i v hv h = h
set-AllBytes (x ∷ b) zero v hv h = (hv, h.1)
set-AllBytes (x ∷ b) (suc i) v hv h = (h.0, set-AllBytes b i v hv h.1)

-- `bits[i] = on` keeps the vector well formed.
pub set_bit-IsValid : (b : Bits) (i : ℕ) (on : Bool) → IsValid b → IsValid (set_bit b i on)
unfolding set_bit
set_bit-IsValid b i on v = record {
  count_fits = v.count_fits;
  allocated =
      rw (length-set b.bytes (i / 8) (assign_byte (get_or b.bytes (i / 8) 0) (i % 8) on))
        v.allocated;
  all_bytes =
      set-AllBytes b.bytes (i / 8) _
        (assign-lt _ (i % 8) on (get_or-AllBytes b.bytes (i / 8) v.all_bytes) (omega arith))
        v.all_bytes;
}

div_in_range : (b : Bits) (i : ℕ) → IsValid b → i < b.bitcount → i / 8 < length b.bytes
unfolding byte_size
div_in_range b i v h = omega arith

same_place :
    (i j : ℕ) (x y : Bool)
    → i / 8 ≡ j / 8
    → (if j % 8 == i % 8 then x else y) ≡ (if j == i then x else y)
same_place i j x y h = ground arith

other_place : (i j : ℕ) (x y : Bool) → ¬ (i / 8 ≡ j / 8) → y ≡ (if j == i then x else y)
other_place i j x y h = ground (arith, λ (e : i ≡ j). h (ap (λ (k : ℕ). k / 8) e))

-- After `bits[i] = on` within the vector, bit `i` reads `on` and every other bit reads as before.
pub get_bit-set_bit :
    (b : Bits) (i j : ℕ) (on : Bool)
    → IsValid b
    → i < b.bitcount
    → get_bit (set_bit b i on) j ≡ (if j == i then on else get_bit b j)
unfolding get_bit set_bit
get_bit-set_bit b i j on v h = elim (ℕ_discrete (i / 8) (j / 8)) [
  | yes same_byte ↦ rw (← same_byte) (
      rw
        (get_or-set_self b.bytes (i / 8) (assign_byte (get_or b.bytes (i / 8) 0) (i % 8) on) 0
          (div_in_range b i v h))
        (test_byte-assign_byte (get_or b.bytes (i / 8) 0) (i % 8) (j % 8) on
            (get_or-AllBytes b.bytes (i / 8) v.all_bytes) (omega arith) (omega arith)
          ∙ same_place i j on _ same_byte))
  | no other ↦
      rw
        (get_or-set_ne b.bytes (i / 8) (j / 8) (assign_byte (get_or b.bytes (i / 8) 0) (i % 8) on) 0
          other)
        (other_place i j on (get_bit b j) other)
]
