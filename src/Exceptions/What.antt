-- ===== src/Exceptions/What.antt =====
-- What `what()` returns of an exception of the system.
use netevent.Prelude.{
  ℕ, zero, suc, ◌+◌, ◌-◌, ◌≤◌, ◌≡◌, refl, sym, ap, ◌∙◌, ◌⊎◌, inl, inr, Bool-cases, leb,
  if◌then◌else◌, ◌==◌, [], ◌∷◌, ◌++◌, some, Bytes, length, take, drop, codes, arith, append_assoc,
  take-append,
}
use netevent.Device.Out.{c_name}
use netevent.Exceptions.{
  msgbuf_size, Printer, Prints, overwrite, run_stores, space_from, errno_exception,
}
use netevent.Exceptions.Bounds.{length-take_le}

short_or_full : (n : ℕ) → n ≤ msgbuf_size → (n ≤ 4095) ⊎ (n ≡ msgbuf_size)
short_or_full n h = elim (Bool-cases (leb n 4095)) [
  | inl e ↦ inl (ground arith)
  | inr e ↦ inr (ground arith)
]

take_all : (n : ℕ) (b : Bytes) → length b ≤ n → take n b ≡ b
take_all zero [] h = refl
take_all zero (x ∷ b) h = absurd (omega arith)
take_all (suc n) [] h = refl
take_all (suc n) (x ∷ b) h = ap (◌∷◌ x) (take_all n b (omega arith))

take-append_more :
    (n : ℕ) (a b : Bytes) → length a ≤ n → take n (a ++ b) ≡ a ++ take (n - length a) b
take-append_more n [] b h = ap (λ (k : ℕ). take k b) (omega arith)
take-append_more zero (x ∷ a) b h = absurd (omega arith)
take-append_more (suc n) (x ∷ a) b h =
    ap (◌∷◌ x) (take-append_more n a b (omega arith) ∙ ap (λ (k : ℕ). a ++ take k b) (omega arith))

take-append_less : (n : ℕ) (a b : Bytes) → n ≤ length a → take n (a ++ b) ≡ take n a
take-append_less zero a b h = refl
take-append_less (suc n) [] b h = absurd (omega arith)
take-append_less (suc n) (x ∷ a) b h = ap (◌∷◌ x) (take-append_less n a b (omega arith))

take-drop : (n : ℕ) (b : Bytes) → take n b ++ drop n b ≡ b
take-drop zero b = refl
take-drop (suc n) [] = refl
take-drop (suc n) (x ∷ b) = ap (◌∷◌ x) (take-drop n b)

regroup : (a b c : Bytes) → a ++ ((b ++ (0 ∷ [])) ++ c) ≡ (a ++ b) ++ (0 ∷ c)
regroup a b c = simp append_assoc

-- A text that ends within the first bytes is read up to its end.
c_name-take :
    (k : ℕ) (x y z : Bytes) → length x ≤ k → c_name (take k (x ++ (0 ∷ y)) ++ (0 ∷ z)) ≡ c_name x
unfolding c_name
c_name-take zero [] y z h = refl
c_name-take (suc k) [] y z h = refl
c_name-take zero (c ∷ x) y z h = absurd (omega arith)
c_name-take (suc k) (c ∷ x) y z h =
    ap (λ (t : Bytes). if c == 0 then [] else c ∷ t) (c_name-take k x y z (omega arith))

-- The last store ends the text that the ones before it left.
last_store :
    (x y buf : Bytes)
    → length x ≤ 4095
    → buf ≡ x ++ (0 ∷ y)
    → c_name (overwrite (record { at = msgbuf_size - 1; bytes = 0 ∷ [] }) buf) ≡ c_name x
last_store x y buf h e = rw e (c_name-take 4095 x y (drop 4096 (x ++ (0 ∷ y))) h)

module _ (print : Printer) (prints : Prints print) where
  first_store :
      (text buf : Bytes)
      → (d : Bytes) × (overwrite (record { at = 0; bytes = print msgbuf_size text }) buf
          ≡ take 4095 text ++ (0 ∷ d))
  first_store text buf = (
    drop (0 + length (print msgbuf_size text)) buf,
    ap (λ (p : Bytes). p ++ drop (0 + length (print msgbuf_size text)) buf)
          (prints.print-suc 4095 text)
        ∙ append_assoc (take 4095 text) (0 ∷ []) _,
  )

  -- A text that leaves some place is followed by what fits of the second one.
  second_store_short :
      (text tail d : Bytes)
      → length text ≤ 4095
      → (y : Bytes) × (overwrite
            (record { at = length text; bytes = print (space_from (length text)) tail })
            (text ++ (0 ∷ d))
          ≡ take 4095 (text ++ tail) ++ (0 ∷ y))
  second_store_short text tail d h =
      let m : ℕ = 4095 - length text in
      let space : space_from (length text) ≡ suc m = omega arith in
      let stored : Bytes = print (space_from (length text)) tail in
      let rest : Bytes = drop (length text + length stored) (text ++ (0 ∷ d)) in
      (
        rest,
        ap (λ (t : Bytes). t ++ (stored ++ rest)) (take-append (length text) text (0 ∷ d) refl)
            ∙ ap (λ (p : Bytes). text ++ (p ++ rest))
                (ap (λ (k : ℕ). print k tail) space ∙ prints.print-suc m tail)
            ∙ regroup text (take m tail) rest
            ∙ ap (λ (t : Bytes). t ++ (0 ∷ rest)) (sym (take-append_more 4095 text tail h)),
      )

  -- A text that fills the buffer is followed by nothing.
  second_store_full :
      (tail buf : Bytes)
      → overwrite (record { at = msgbuf_size; bytes = print (space_from msgbuf_size) tail }) buf
        ≡ buf
  second_store_full tail buf = rw (prints.print-zero tail) (take-drop msgbuf_size buf)

  -- The buffer behind the first two stores.
  two_stores :
      (text tail buf : Bytes)
      → length text ≤ msgbuf_size
      → (y : Bytes) × (overwrite
            (record { at = length text; bytes = print (space_from (length text)) tail })
            (overwrite (record { at = 0; bytes = print msgbuf_size text }) buf)
          ≡ take 4095 (text ++ tail) ++ (0 ∷ y))
  two_stores text tail buf h =
      let (d, first) = first_store text buf in
      elim (short_or_full (length text) h) [
        | inl short ↦
            let (y, second) = second_store_short text tail d short in
            (
              y,
              ap
                    (overwrite
                      (record { at = length text; bytes = print (space_from (length text)) tail }))
                    (first ∙ ap (λ (t : Bytes). t ++ (0 ∷ d)) (take_all 4095 text short))
                  ∙ second,
            )
        | inr full ↦
            let less : 4095 ≤ length text = omega arith in
            (
              d,
              ap
                    (λ (k : ℕ).
                      overwrite (record { at = k; bytes = print (space_from k) tail })
                        (overwrite (record { at = 0; bytes = print msgbuf_size text }) buf))
                    full
                  ∙ second_store_full tail _
                  ∙ first
                  ∙ ap (λ (t : Bytes). t ++ (0 ∷ d)) (sym (take-append_less 4095 text tail less)),
            )
      ]

  -- Of a text that stays within the buffer, and of what `strerror` says, `what()` returns the first
  -- 4095 bytes, up to a NUL if the text has one, whatever the buffer held.
  pub what-errno_exception :
      (text error buf : Bytes)
      → length text ≤ msgbuf_size
      → c_name (run_stores (errno_exception print (some text) error) buf)
        ≡ c_name (take (msgbuf_size - 1) (text ++ (codes ": " ++ error)))
  unfolding run_stores errno_exception
  what-errno_exception text error buf h =
      let (y, e) = two_stores text (codes ": " ++ error) buf h in
      last_store (take 4095 (text ++ (codes ": " ++ error))) y _
        (length-take_le 4095 (text ++ (codes ": " ++ error))) e
