-- ===== src/Io.antt =====
-- Blocking reads (utils.h, `mustRead`). What `::read` returns from a descriptor is the parameter of
-- the model: the list of its answers. A read asks for `length` bytes and gets as many as the next
-- chunk has, at most `length`; the rest of the chunk stays for the next read.
pub mod Reads
use netevent.Prelude.{
  ℕ, zero, suc, ◌+◌, ◌-◌, ◌≤◌, ◌<◌, ◌≡◌, refl, ◌⊎◌, inl, inr, Bool, true, false, List, [], ◌∷◌,
  ◌++◌, Bytes, arith, length, take, drop, leb, if◌then◌else◌, Bool-cases, append_assoc,
}

-- One answer of `::read`: bytes (none of them is the end of the file), or -1 with an errno.
pub data Chunk : Type 0 where
  got : Bytes → Chunk
  error : ℕ → Chunk

-- `mustRead` returns true with the buffer filled, or false with errno (0 at the end of the file).
pub data ReadResult : Type 0 where
  done : Bytes → List Chunk → ReadResult
  failed : ℕ → ReadResult

-- Puts what was read before in front of the buffer.
abbrev pub with_prefix : Bytes → ReadResult → ReadResult
with_prefix b (done c rest) = done (b ++ c) rest
with_prefix b (failed e) = failed e

unfoldable pub must_read : ℕ → List Chunk → ReadResult
must_read zero cs = done [] cs
must_read (suc n) [] = failed 0
must_read (suc n) (error e ∷ cs) = failed e
must_read (suc n) (got [] ∷ cs) = failed 0
must_read (suc n) (got (x ∷ b) ∷ cs) =
    let rest = with_prefix (x ∷ b) (must_read (n - length b) cs) in
    if leb (length b) n then rest else done (take (suc n) (x ∷ b)) (got (drop (suc n) (x ∷ b)) ∷ cs)

-- All bytes that the descriptor delivers up to its end or an error.
unfoldable pub delivered : List Chunk → Bytes
delivered [] = []
delivered (error e ∷ cs) = []
delivered (got [] ∷ cs) = []
delivered (got (x ∷ b) ∷ cs) = x ∷ (b ++ delivered cs)
