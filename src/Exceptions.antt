-- ===== src/Exceptions.antt =====
-- The messages of exceptions (main.cpp, `MsgException` and `ErrnoException`; types.h). A constructor
-- is what it stores into `msgbuf_`, in order. `vsnprintf` and `snprintf` are parameters: what they
-- store for a text and a size, and that they return the length of the text.
pub mod Bounds
pub mod What
use netevent.Prelude.{
  ℕ, zero, suc, ◌+◌, ◌-◌, ◌%◌, ◌^◌, ◌≤◌, ◌≡◌, List, [], ◌∷◌, ◌++◌, Option, none, some, Bytes,
  length, take, drop, codes,
}

-- `sizeof(msgbuf_)`
abbrev pub msgbuf_size : ℕ
msgbuf_size = 4096

-- What a call of `snprintf` with a size stores for a text.
abbrev pub Printer : Type 0
Printer = ℕ → Bytes → Bytes

-- Nothing into a buffer of no size, and else as much of the text as leaves place for the NUL.
pub record Prints (print : Printer) : Type 0 where
  pub print-zero : (text : Bytes) → print 0 text ≡ []
  pub print-suc : (n : ℕ) (text : Bytes) → print (suc n) text ≡ take n text ++ (0 ∷ [])

pub record Store : Type 0 where
  pub at : ℕ
  pub bytes : Bytes

-- A text behind a position of a buffer, with the rest as it was.
abbrev pub overwrite : Store → Bytes → Bytes
overwrite w buf = take w.at buf ++ (w.bytes ++ drop (w.at + length w.bytes) buf)

unfoldable pub run_stores : List Store → Bytes → Bytes
run_stores [] buf = buf
run_stores (w ∷ ws) buf = run_stores ws (overwrite w buf)

-- `sizeof(msgbuf_)-size_t(end)`
abbrev pub space_from : ℕ → ℕ
space_from end = (msgbuf_size + 2 ^ 64 - end) % 2 ^ 64

-- `end`, which is 0 where the formatting failed.
abbrev pub end_of : Option Bytes → ℕ
end_of none = 0
end_of (some text) = length text

module _ (print : Printer) where
  -- `::vsnprintf(msgbuf_, sizeof(msgbuf_), msg, ap)`; `none` is a text that cannot be formatted.
  abbrev pub formatted : Option Bytes → List Store
  formatted none = []
  formatted (some text) = record { at = 0; bytes = print msgbuf_size text } ∷ []

  -- `MsgException::MsgException(const char*, ...)`
  unfoldable pub msg_exception : Option Bytes → List Store
  msg_exception text = formatted text

  -- `ErrnoException::ErrnoException(const char*, ...)`, for what `strerror` says.
  unfoldable pub errno_exception : Option Bytes → Bytes → List Store
  errno_exception text error =
      formatted text
      ++ (record {
        at = end_of text;
        bytes = print (space_from (end_of text)) (codes ": " ++ error);
      }
          ∷ record { at = msgbuf_size - 1; bytes = 0 ∷ [] }
          ∷ [])
