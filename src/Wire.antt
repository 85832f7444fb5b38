-- ===== src/Wire.antt =====
-- Big-endian numbers: what htobe16, htobe32 and htobe64 leave in memory, and be16toh, be32toh and
-- be64toh of that memory (main.h, `InputEvent::toNet` and `toHost`, and their other callers). A
-- signed 32-bit value is its bit pattern.
use netevent.Prelude.{
  ℕ, ◌+◌, ◌*◌, ◌/◌, ◌%◌, ◌^◌, ◌<◌, ◌≡◌, [], ◌∷◌, ◌++◌, Bytes, arith, get_or, take, drop, length,
}

unfoldable pub htobe16 : ℕ → Bytes
htobe16 n = n / 256 % 256 ∷ n % 256 ∷ []

unfoldable pub htobe32 : ℕ → Bytes
unfolding htobe16
htobe32 n = htobe16 (n / 2 ^ 16) ++ htobe16 n

unfoldable pub htobe64 : ℕ → Bytes
unfolding htobe32
htobe64 n = htobe32 (n / 2 ^ 32) ++ htobe32 n

unfoldable pub be16toh : Bytes → ℕ
be16toh b = get_or b 0 0 * 256 + get_or b 1 0

unfoldable pub be32toh : Bytes → ℕ
unfolding be16toh
be32toh b = be16toh b * 2 ^ 16 + be16toh (drop 2 b)

unfoldable pub be64toh : Bytes → ℕ
unfolding be32toh
be64toh b = be32toh b * 2 ^ 32 + be32toh (drop 4 b)

-- The `n` bytes at offset `at` of a packed struct.
abbrev pub slice : ℕ → ℕ → Bytes → Bytes
slice at n b = take n (drop at b)

pub be16toh-htobe16 : (n : ℕ) → n < 2 ^ 16 → be16toh (htobe16 n) ≡ n
unfolding be16toh htobe16
be16toh-htobe16 n h = omega arith

pub be32toh-htobe32 : (n : ℕ) → n < 2 ^ 32 → be32toh (htobe32 n) ≡ n
unfolding be32toh htobe32
be32toh-htobe32 n h = omega arith

pub be64toh-htobe64 : (n : ℕ) → n < 2 ^ 64 → be64toh (htobe64 n) ≡ n
unfolding be64toh htobe64
be64toh-htobe64 n h = omega arith

pub length-htobe16 : (n : ℕ) → length (htobe16 n) ≡ 2
unfolding htobe16
length-htobe16 n = omega arith
