-- ===== src/Bits/Resize.antt =====
-- Resizing: which bits survive, and which are cleared.
use netevent.Prelude.{
  ℕ, zero, suc, ◌-◌, ◌/◌, ◌%◌, ◌^◌, ◌≤◌, ◌<◌, ◌≡◌, refl, ap, sym, ◌∙◌, inl, inr, Bool, true, false,
  [], ◌∷◌, ◌++◌, Bytes, length, get_or, take, replicate, ltb, if◌then◌else◌, arith, subst, ◌⊎◌,
  some, length-replicate,
}
use netevent.Bits.{
  Bits, IsValid, AllBytes, byte_size, get_bit, test_byte, reallocated, resize, empty,
}

abbrev cleared : ℕ → ℕ → Bytes → Bytes
cleared old new b = take new (take old b) ++ replicate (new - old) 0

take_nil : (n : ℕ) → ◌≡◌ {A = Bytes} (take n []) []
take_nil zero = refl
take_nil (suc n) = refl

get_or-replicate : (n k : ℕ) → ◌≡◌ {A = ℕ} (get_or (replicate n 0) k 0) 0
get_or-replicate zero k = refl
get_or-replicate (suc n) zero = refl
get_or-replicate (suc n) (suc k) = get_or-replicate n k

get_or-cleared :
    (old new k : ℕ) (b : Bytes)
    → old ≤ length b
    → k < new
    → get_or (cleared old new b) k 0 ≡ (if ltb k old then get_or b k 0 else 0)
get_or-cleared zero new k b h l =
    ap (λ (x : Bytes). get_or (x ++ replicate (new - 0) 0) k 0) (take_nil new)
    ∙ get_or-replicate _ k
    ∙ ground arith
get_or-cleared (suc old) new k [] h l = absurd (omega arith)
get_or-cleared (suc old) zero k (x ∷ b) h l = absurd (omega arith)
get_or-cleared (suc old) (suc new) zero (x ∷ b) h l = ground arith
get_or-cleared (suc old) (suc new) (suc k) (x ∷ b) h l =
    let e : suc new - suc old ≡ new - old = omega arith in
    rw e (get_or-cleared old new k b (omega arith) (omega arith) ∙ ground arith)

length-cleared : (old new : ℕ) (b : Bytes) → old ≤ length b → length (cleared old new b) ≡ new
length-cleared zero new b h =
    ap (λ (x : Bytes). length (x ++ replicate (new - 0) 0)) (take_nil new)
    ∙ length-replicate (new - 0) 0
    ∙ omega arith
length-cleared (suc old) new [] h = absurd (omega arith)
length-cleared (suc old) zero (x ∷ b) h = omega (arith, length-replicate {A = ℕ} (zero - suc old) 0)
length-cleared (suc old) (suc new) (x ∷ b) h =
    let e : suc new - suc old ≡ new - old = omega arith in
    rw e (ap suc (length-cleared old new b (omega arith)))

AllBytes-replicate : (n : ℕ) → AllBytes (replicate n 0)
AllBytes-replicate zero = tt
AllBytes-replicate (suc n) = (omega arith, AllBytes-replicate n)

AllBytes-append : (a b : Bytes) → AllBytes a → AllBytes b → AllBytes (a ++ b)
AllBytes-append [] b ha hb = hb
AllBytes-append (x ∷ a) b ha hb = (ha.0, AllBytes-append a b ha.1 hb)

AllBytes-take : (n : ℕ) (b : Bytes) → AllBytes b → AllBytes (take n b)
AllBytes-take zero b h = tt
AllBytes-take (suc n) [] h = tt
AllBytes-take (suc n) (x ∷ b) h = (h.0, AllBytes-take n b h.1)

cleared-AllBytes : (old new : ℕ) (b : Bytes) → AllBytes b → AllBytes (cleared old new b)
cleared-AllBytes old new b h =
    AllBytes-append (take new (take old b)) (replicate (new - old) 0)
      (AllBytes-take new (take old b) (AllBytes-take old b h)) (AllBytes-replicate (new - old))

byte_size_bound : (n i : ℕ) → n < 2 ^ 64 - 7 → i < n → i / 8 < byte_size n
unfolding byte_size
byte_size_bound n i h l = omega arith

test_byte-zero : (k : ℕ) → k < 8 → test_byte 0 k ≡ false
unfolding test_byte
test_byte-zero zero h = refl
test_byte-zero (suc zero) h = refl
test_byte-zero (suc (suc zero)) h = refl
test_byte-zero (suc (suc (suc zero))) h = refl
test_byte-zero (suc (suc (suc (suc zero)))) h = refl
test_byte-zero (suc (suc (suc (suc (suc zero))))) h = refl
test_byte-zero (suc (suc (suc (suc (suc (suc zero)))))) h = refl
test_byte-zero (suc (suc (suc (suc (suc (suc (suc zero))))))) h = refl
test_byte-zero (suc (suc (suc (suc (suc (suc (suc (suc k)))))))) h = absurd (omega arith)

get_bit-reallocated :
    (n i : ℕ) (b : Bits)
    → IsValid b
    → n < 2 ^ 64 - 7
    → i < n
    → get_bit (reallocated n b) i
      ≡ (if ltb (i / 8) (byte_size b.bitcount) then get_bit b i else false)
unfolding get_bit reallocated
get_bit-reallocated n i b v hn hi =
    ap (λ (x : ℕ). test_byte x (i % 8))
      (get_or-cleared (byte_size b.bitcount) (byte_size n) (i / 8) b.bytes v.allocated
        (byte_size_bound n i hn hi))
    ∙ split (ltb (i / 8) (byte_size b.bitcount))
  where
    split :
        (t : Bool)
        → test_byte (if t then get_or b.bytes (i / 8) 0 else 0) (i % 8)
          ≡ (if t then test_byte (get_or b.bytes (i / 8) 0) (i % 8) else false)
    split true = refl
    split false = test_byte-zero (i % 8) (omega arith)

reallocated-IsValid : (n : ℕ) (b : Bits) → IsValid b → n < 2 ^ 64 - 7 → IsValid (reallocated n b)
unfolding reallocated
reallocated-IsValid n b v h = record {
  count_fits = h;
  allocated =
      omega (arith, length-cleared (byte_size b.bitcount) (byte_size n) b.bytes v.allocated);
  all_bytes = cleared-AllBytes (byte_size b.bitcount) (byte_size n) b.bytes v.all_bytes;
}

empty-IsValid : IsValid empty
unfolding byte_size
empty-IsValid = omega arith

-- A resized vector: well formed, of the asked count, with the bits of the covered bytes kept and
-- all others clear.
abbrev pub Resized : ℕ → Bits → Bits → Type 0
Resized n b c =
    IsValid c
    × (c.bitcount ≡ n)
    × ((i : ℕ)
        → i < n
        → get_bit c i ≡ (if ltb (i / 8) (byte_size b.bitcount) then get_bit b i else false))

resize_inv :
    (alloc : ℕ → Bool) (n : ℕ) (b c : Bits)
    → resize alloc n b ≡ some c
    → ((n ≡ 0) × (empty ≡ c)) ⊎ (reallocated n b ≡ c)
unfolding resize
resize_inv alloc zero b c e = inl (refl, ground arith)
resize_inv alloc (suc n) b c e = inr (ground arith)

-- After a `resize` that succeeds the vector is well formed and counts `n` bits. Those whose byte
-- the old count covered read as before, and all others are clear.
pub resize-Resized :
    (alloc : ℕ → Bool) (n : ℕ) (b c : Bits)
    → IsValid b
    → n < 2 ^ 64 - 7
    → resize alloc n b ≡ some c
    → Resized n b c
resize-Resized alloc n b c v h e = elim (resize_inv alloc n b c e) [
  | inl (z, q) ↦ subst (Resized n b) q (empty-IsValid, sym z, λ i l. absurd (omega arith))
  | inr q ↦
      subst (Resized n b) q (
        reallocated-IsValid n b v h,
        unfold reallocated in refl,
        λ i. get_bit-reallocated n i b v h,
      )
]
