-- ===== src/Bits.antt =====
-- The bit vector of bitfield.h and bitfield.cpp: a count of bits over an allocation of bytes.
-- `size_t` is 64 bits wide. A default-constructed `Bits` has no allocation: the empty list.
pub mod Access
pub mod Resize
use Prim.Native.Nat.{bit_and, bit_or}
use netevent.Prelude.{
  ℕ, zero, suc, ◌+◌, ◌-◌, ◌*◌, ◌/◌, ◌%◌, ◌^◌, ◌≤◌, ◌<◌, ◌≡◌, refl, Bool, true, false, not, List, [],
  ◌∷◌, ◌++◌, Option, none, some, Bytes, length, get_or, set, take, drop, replicate, ltb, leb, ◌==◌,
  if◌then◌else◌,
}

pub record Bits : Type 0 where
  pub bitcount : ℕ
  pub bytes : Bytes

-- `Bits::Bits()`
abbrev pub empty : Bits
empty = record { bitcount = 0; bytes = [] }

-- `Bits::byte_size(size_t)`
unfoldable pub byte_size : ℕ → ℕ
byte_size n = (n + 7) % 2 ^ 64 / 8

-- What `resize` does once `::realloc` has succeeded. The bytes from the old size on are cleared,
-- so that what `realloc` leaves there does not matter.
unfoldable pub reallocated : ℕ → Bits → Bits
reallocated n b =
    let oldsize = byte_size b.bitcount in
    let newsize = byte_size n in
    let kept = take newsize (take oldsize b.bytes) in
    record { bitcount = n; bytes = kept ++ replicate (newsize - oldsize) 0 }

-- `Bits::resize`. `alloc` says whether an allocation of that many bytes succeeds; `none` is the
-- exception.
unfoldable pub resize : (ℕ → Bool) → ℕ → Bits → Option Bits
unfolding reallocated
resize alloc n b =
    if n == 0
    then some empty
    else if alloc ((n + 7) % 2 ^ 64 / 8)
    then some (reallocated n b)
    else none

-- `Bits::Bits(size_t)`
unfoldable pub new_bits : (ℕ → Bool) → ℕ → Option Bits
unfolding resize
new_bits alloc n = resize alloc n empty

-- `Bits::resizeNE1Compat`
unfoldable pub resize_ne1_compat : (ℕ → Bool) → ℕ → Bits → Option Bits
unfolding resize
resize_ne1_compat alloc n b = resize alloc (8 * (1 + n / 8) % 2 ^ 64) b

-- `Bits::shrinkTo`
unfoldable pub shrink_to : ℕ → Bits → Bits
shrink_to n b = if ltb n b.bitcount then record b { bitcount = n } else b

-- `Bits::setBitCount`
unfoldable pub set_bit_count : ℕ → Bits → Bits
set_bit_count n b = record b { bitcount = n }

-- `byte & (1 << k)` as a truth value, and `byte |= (1 << k)` or `byte &= ~(1 << k)` over `uint8_t`.
unfoldable pub test_byte : ℕ → ℕ → Bool
test_byte old k = not (bit_and old (2 ^ k) == 0)

unfoldable pub assign_byte : ℕ → ℕ → Bool → ℕ
assign_byte old k on = if on then bit_or old (2 ^ k) else bit_and old (255 - 2 ^ k)

-- `BitAccess::operator bool`
unfoldable pub get_bit : Bits → ℕ → Bool
get_bit b i = test_byte (get_or b.bytes (i / 8) 0) (i % 8)

-- `BitAccess::operator=(bool)`
unfoldable pub set_bit : Bits → ℕ → Bool → Bits
set_bit b i on = record b {
  bytes = set b.bytes (i / 8) (assign_byte (get_or b.bytes (i / 8) 0) (i % 8) on);
}

-- `Bits::dup`: a fresh vector of the same count, and `memcpy` of its bytes.
unfoldable pub dup : (ℕ → Bool) → Bits → Option Bits
unfolding new_bits
dup alloc b = elim (new_bits alloc b.bitcount) [
  | none ↦ none
  | some d ↦ some (record d { bytes = take (byte_size b.bitcount) b.bytes })
]

-- `Bits::begin()` to `Bits::end()`: the indices that a loop over the bits visits, in order, from
-- `i` for `n` steps.
abbrev pub indices : ℕ → ℕ → List ℕ
indices i zero = []
indices i (suc n) = i ∷ indices (suc i) n

-- The set bits among these: `for (auto bit : bits) if (bit) …`.
abbrev pub set_among : Bits → List ℕ → List ℕ
set_among b [] = []
set_among b (i ∷ is) = if get_bit b i then i ∷ set_among b is else set_among b is

unfoldable pub set_bits : Bits → List ℕ
set_bits b = set_among b (indices 0 b.bitcount)

-- The bytes that the count covers are allocated, and they are bytes.
abbrev pub AllBytes : Bytes → Type 0
AllBytes [] = Unit {0}
AllBytes (x ∷ xs) = (x < 256) × AllBytes xs

pub record IsValid (b : Bits) : Type 0 where
  pub count_fits : b.bitcount < 2 ^ 64 - 7
  pub allocated : byte_size b.bitcount ≤ length b.bytes
  pub all_bytes : AllBytes b.bytes
