-- ===== src/Exceptions/Bounds.antt =====
-- Where the constructors of exceptions store, and what `what()` returns.
use netevent.Prelude.{
  Bool-cases, leb, ℕ, zero, suc, ◌+◌, ◌-◌, ◌^◌, ◌≤◌, ◌<◌, ◌≡◌, ◌↔◌, inl, inr, List, [], ◌∷◌, ◌++◌,
  some, Bytes, length, take, codes, arith, length-append,
}
use netevent.Exceptions.{msgbuf_size, Printer, Prints, Store, space_from, errno_exception}

abbrev pub Within : List Store → Type 0
Within [] = Unit {0}
Within (w ∷ ws) = (w.at + length w.bytes ≤ msgbuf_size) × Within ws

pub length-take_le : (n : ℕ) (b : Bytes) → length (take n b) ≤ n
length-take_le zero b = omega arith
length-take_le (suc n) [] = omega arith
length-take_le (suc n) (x ∷ b) = omega (arith, length-take_le n b)

module _ (print : Printer) (prints : Prints print) where
  -- What is stored fits the size that was given.
  length-print : (n : ℕ) (text : Bytes) → length (print n text) ≤ n
  length-print zero text = rw (prints.print-zero text) (omega arith)
  length-print (suc n) text =
      rw (prints.print-suc n text)
        (omega (arith, length-append (take n text) (0 ∷ []), length-take_le n text))

  -- A buffer of some size gets a byte at least.
  length-print_pos : (n : ℕ) (text : Bytes) → 0 < n → 0 < length (print n text)
  length-print_pos zero text h = absurd (omega arith)
  length-print_pos (suc n) text h =
      rw (prints.print-suc n text) (omega (arith, length-append (take n text) (0 ∷ [])))

  -- The stores of an exception of the system stay within the buffer of its message exactly if the
  -- formatted text has at most 4096 bytes, the size of the buffer. A text has less than 2 ^ 31 bytes,
  -- the greatest `int`.
  pub errno_exception_bounds :
      (text error : Bytes)
      → length text < 2 ^ 31
      → Within (errno_exception print (some text) error) ↔ (length text ≤ msgbuf_size)
  unfolding errno_exception
  errno_exception_bounds text error h = (
    (λ w. elim (Bool-cases (leb (length text) msgbuf_size)) [
      | inl fits ↦ ground arith
      | inr over ↦
          let some_space : 0 < space_from (length text) = ground arith in
          let one = length-print_pos (space_from (length text)) (codes ": " ++ error) some_space in
          absurd (ground (arith, w.1.0, one))
    ]),
    (λ l.
        let space : space_from (length text) ≡ msgbuf_size - length text = omega arith in
        (
          omega (arith, length-print msgbuf_size text),
          (
            omega (arith, space, length-print (space_from (length text)) (codes ": " ++ error)),
            (omega arith, tt),
          ),
        )),
  )
