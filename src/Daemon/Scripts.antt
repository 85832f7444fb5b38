-- ===== src/Daemon/Scripts.antt =====
-- The lines of a file of commands (daemon.cpp, `sourceCommandFile`).
use netevent.Prelude.{
  ℕ, ◌≡◌, refl, ap, sym, ◌∙◌, [], ◌∷◌, ◌++◌, none, some, Bytes, ◌==◌, if◌then◌else◌,
}
use netevent.Text.Lexer.{c_string}
use netevent.Daemon.Commands.Dispatch.{cut_last, skip_space, source_line}

cut_last-append : (s : Bytes) (c : ℕ) → cut_last (s ++ (c ∷ [])) ≡ s
unfolding cut_last
cut_last-append [] c = refl
cut_last-append (a ∷ []) c = refl
cut_last-append (a ∷ b ∷ s) c = ap (◌∷◌ a) (cut_last-append (b ∷ s) c)

-- What a line runs does not depend on its last character, whatever that is.
pub source_line_last :
    (s : Bytes) (c d : ℕ) → source_line (s ++ (c ∷ [])) ≡ source_line (s ++ (d ∷ []))
unfolding source_line
source_line_last s c d =
    ap
      (λ (line : Bytes). elim (skip_space (c_string line)) [
        | [] ↦ none
        | x ∷ t ↦ if x == b'#' then none else some (x ∷ t)
      ])
      (cut_last-append s c ∙ sym (cut_last-append s d))
