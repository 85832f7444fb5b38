-- ===== src/Io/Reads.antt =====
-- `mustRead` depends on the bytes that arrive and not on how they are split into reads.
use netevent.Prelude.{
  ℕ, zero, suc, ◌-◌, ◌≤◌, ◌<◌, ◌≡◌, refl, inl, inr, List, [], ◌∷◌, ap, ◌++◌, Bytes, arith, length,
  sym, ◌∙◌, take, drop, leb, Bool-cases, length-append, leb→le,
}
use netevent.Io.{Chunk, got, error, ReadResult, done, failed, with_prefix, must_read, delivered}

take_over : (n : ℕ) (b c : Bytes) → length b ≤ n → take n (b ++ c) ≡ b ++ take (n - length b) c
take_over n [] c h = ground arith
take_over zero (x ∷ b) c h = absurd (omega arith)
take_over (suc n) (x ∷ b) c h = ground (arith, take_over n b c (omega arith))

drop_over : (n : ℕ) (b c : Bytes) → length b ≤ n → drop n (b ++ c) ≡ drop (n - length b) c
drop_over n [] c h = ground arith
drop_over zero (x ∷ b) c h = absurd (omega arith)
drop_over (suc n) (x ∷ b) c h = ground (arith, drop_over n b c (omega arith))

take_within : (n : ℕ) (b c : Bytes) → n ≤ length b → take n (b ++ c) ≡ take n b
take_within zero b c h = refl
take_within (suc n) [] c h = absurd (omega arith)
take_within (suc n) (x ∷ b) c h = ap (◌∷◌ x) (take_within n b c (omega arith))

drop_within : (n : ℕ) (b c : Bytes) → n ≤ length b → drop n (b ++ c) ≡ drop n b ++ c
drop_within zero b c h = refl
drop_within (suc n) [] c h = absurd (omega arith)
drop_within (suc n) (x ∷ b) c h = drop_within n b c (omega arith)

-- What a read of `n` bytes from `cs` must return.
abbrev Reads : ℕ → List Chunk → ReadResult → Type 0
Reads n cs (done b rest) =
    (b ≡ take n (delivered cs))
    × (delivered rest ≡ drop n (delivered cs))
    × (n ≤ length (delivered cs))
Reads n cs (failed e) = length (delivered cs) < n

delivered_got :
    (b : Bytes) (cs : List Chunk) → 0 < length b → delivered (got b ∷ cs) ≡ b ++ delivered cs
unfolding delivered
delivered_got [] cs h = absurd (omega arith)
delivered_got (x ∷ b) cs h = refl

length-drop : (n : ℕ) (b : Bytes) → length (drop n b) ≡ length b - n
length-drop zero b = omega arith
length-drop (suc n) [] = omega arith
length-drop (suc n) (x ∷ b) = omega (arith, length-drop n b)

Reads-more :
    (n x : ℕ) (b : Bytes) (cs : List Chunk) (r : ReadResult)
    → length b ≤ n
    → Reads (n - length b) cs r
    → Reads (suc n) (got (x ∷ b) ∷ cs) (with_prefix (x ∷ b) r)
unfolding delivered
Reads-more n x b cs (done c rest) h (p, q, l) = (
  ap (◌∷◌ x) (rw p (sym (take_over n b _ h))),
  q ∙ sym (drop_over n b _ h),
  omega (arith, length-append b (delivered cs)),
)
Reads-more n x b cs (failed e) h p = omega (arith, length-append b (delivered cs))

Reads-last :
    (n x : ℕ) (b : Bytes) (cs : List Chunk)
    → n ≤ length b
    → n < length b
    → Reads
        (suc n)
        (got (x ∷ b) ∷ cs)
        (done (take (suc n) (x ∷ b)) (got (drop (suc n) (x ∷ b)) ∷ cs))
unfolding delivered
Reads-last n x b cs h k = (
  ap (◌∷◌ x) (sym (take_within n b _ h)),
  delivered_got _ cs (omega (arith, length-drop n b)) ∙ sym (drop_within n b _ h),
  omega (arith, length-append b (delivered cs)),
)

must_read-Reads : (n : ℕ) (cs : List Chunk) → Reads n cs (must_read n cs)
unfolding must_read delivered
must_read-Reads zero cs = (refl, refl, omega arith)
must_read-Reads (suc n) [] = omega arith
must_read-Reads (suc n) (error e ∷ cs) = omega arith
must_read-Reads (suc n) (got [] ∷ cs) = omega arith
must_read-Reads (suc n) (got (x ∷ b) ∷ cs) = elim (Bool-cases (leb (length b) n)) [
  | inl fits ↦ rw fits (Reads-more n x b cs _ (leb→le _ _ fits) (must_read-Reads (n - length b) cs))
  | inr over ↦ rw over (Reads-last n x b cs (ground arith) (ground arith))
]

-- When at least `n` bytes arrive, `mustRead` returns the first `n` of them, however they are split
-- into chunks, and what is left on the descriptor is the remaining bytes.
pub must_read_succeeds :
    (n : ℕ) (cs : List Chunk)
    → n ≤ length (delivered cs)
    → (rest : List Chunk) × (must_read n cs ≡ done (take n (delivered cs)) rest)
      × (delivered rest ≡ drop n (delivered cs))
must_read_succeeds n cs h = go (must_read n cs) refl (must_read-Reads n cs)
  where
    go :
        (r : ReadResult)
        → must_read n cs ≡ r
        → Reads n cs r
        → (rest : List Chunk) × (must_read n cs ≡ done (take n (delivered cs)) rest)
          × (delivered rest ≡ drop n (delivered cs))
    go (done b rest) e (p, q, l) = (rest, rw (← p) e, q)
    go (failed x) e l = absurd (omega arith)

-- When fewer than `n` bytes arrive, `mustRead` fails.
pub must_read_fails :
    (n : ℕ) (cs : List Chunk) → length (delivered cs) < n → (e : ℕ) × (must_read n cs ≡ failed e)
must_read_fails n cs h = go (must_read n cs) refl (must_read-Reads n cs)
  where
    go :
        (r : ReadResult) → must_read n cs ≡ r → Reads n cs r → (e : ℕ) × (must_read n cs ≡ failed e)
    go (done b rest) e (p, q, l) = absurd (omega arith)
    go (failed x) e l = (x, e)
