-- ===== src/Socket/Address.antt =====
-- The address of a Unix socket: its bounds and its contents.
use netevent.Prelude.{
  ℕ, suc, ◌+◌, ◌≤◌, ◌<◌, ◌≡◌, ◌≢◌, refl, ap, sym, ◌∙◌, true, false, [], ◌∷◌, ◌++◌, none, some,
  Bytes, length, take, drop, leb, arith, append-nil, length-append, take-append, length-drop,
}
use mathlib.Core.Option.{some-ne-none}
use netevent.Socket.{path_size, put, put_then, fill_path, covered}

drop_over : (n : ℕ) (p r : Bytes) → drop (length p + n) (p ++ r) ≡ drop n r
drop_over n [] r = ap (λ (k : ℕ). drop k r) zero_add
  where
    zero_add : 0 + n ≡ n
    zero_add = omega arith
drop_over n (x ∷ p) r = ap (λ (k : ℕ). drop k (x ∷ (p ++ r))) suc_add ∙ drop_over n p r
  where
    suc_add : suc (length p) + n ≡ suc (length p + n)
    suc_add = omega arith

take_whole : (n : ℕ) (b : Bytes) → length b ≡ n → take n b ≡ b
take_whole n b h = rw append-nil at (take-append n b [] h)

put_short : (i : ℕ) (b buffer : Bytes) → length buffer < i + length b → put i b buffer ≡ none
put_short i b buffer h =
    let e : leb (i + length b) (length buffer) ≡ false = ground arith in rw e refl

-- A write behind a part of the buffer that is known.
put_behind :
    (i : ℕ) (p b r : Bytes)
    → length p ≡ i
    → length b ≤ length r
    → put i b (p ++ r) ≡ some (p ++ (b ++ drop (length b) r))
put_behind i p b r e h =
    let fits : leb (i + length b) (length (p ++ r)) ≡ true = ground (arith, length-append p r) in
    let rest : drop (i + length b) (p ++ r) ≡ drop (length b) r =
      ap (λ (k : ℕ). drop (k + length b) (p ++ r)) (sym e) ∙ drop_over (length b) p r in
    rw (fits, take-append i p r e, rest) refl

-- What stands in `sun_path` behind the name.
abbrev pub behind : ℕ → Bytes → Bytes
behind n buffer = drop 1 (drop n buffer)

pub fill_path-file :
    (path buffer : Bytes)
    → length buffer ≡ path_size
    → length path < path_size
    → fill_path false path buffer ≡ some (path ++ (0 ∷ behind (length path) buffer))
unfolding fill_path
fill_path-file path buffer l h =
    ap (put_then (length path) (0 ∷ [])) (put_behind 0 [] path buffer refl (omega arith))
    ∙ put_behind (length path) path (0 ∷ []) (drop (length path) buffer) refl
        (omega (arith, length-drop (length path) buffer))

abstract_started :
    (path buffer : Bytes)
    → length buffer ≡ path_size
    → length path < path_size
    → put_then 1 path (put 0 (0 ∷ []) buffer)
      ≡ some (0 ∷ (path ++ drop (length path) (drop 1 buffer)))
abstract_started path buffer l h =
    ap (put_then 1 path) (put_behind 0 [] (0 ∷ []) buffer refl (omega arith))
    ∙ put_behind 1 (0 ∷ []) path (drop 1 buffer) refl (omega (arith, length-drop 1 buffer))

pub fill_path-abstract :
    (path buffer : Bytes)
    → length buffer ≡ path_size
    → suc (length path) < path_size
    → fill_path true path buffer ≡ some (0 ∷ (path ++ (0 ∷ behind (length path) (drop 1 buffer))))
unfolding fill_path
fill_path-abstract path buffer l h =
    ap (put_then (1 + length path) (0 ∷ [])) (abstract_started path buffer l (omega arith))
    ∙ put_behind (1 + length path) (0 ∷ path) (0 ∷ []) (drop (length path) (drop 1 buffer))
        (omega arith)
        (omega (arith, length-drop (length path) (drop 1 buffer), length-drop 1 buffer))

fill_path-over :
    (path buffer : Bytes)
    → length buffer ≡ path_size
    → suc (length path) ≡ path_size
    → fill_path true path buffer ≡ none
unfolding fill_path
fill_path-over path buffer l h =
    ap (put_then (1 + length path) (0 ∷ [])) (abstract_started path buffer l (omega arith))
    ∙ put_short (1 + length path) (0 ∷ []) (0 ∷ (path ++ drop (length path) (drop 1 buffer))) (
        omega (
          arith,
          length-append path (drop (length path) (drop 1 buffer)),
          length-drop (length path) (drop 1 buffer),
          length-drop 1 buffer,
        ))

-- The writes to an address, for a path that passes the check of its length: those of a path of the
-- file system stay within `sun_path`, those of an abstract name do exactly if it is not of the
-- greatest length that passes the check. One byte is written behind the address for such a name.
pub fill_path_bounds :
    (path buffer : Bytes)
    → length buffer ≡ path_size
    → length path < path_size
    → (fill_path false path buffer ≢ none)
      × (suc (length path) < path_size → fill_path true path buffer ≢ none)
      × (suc (length path) ≡ path_size → fill_path true path buffer ≡ none)
fill_path_bounds path buffer l h = (
  (λ e. some-ne-none _ (sym (fill_path-file path buffer l h) ∙ e)),
  (λ s e. some-ne-none _ (sym (fill_path-abstract path buffer l s) ∙ e)),
  fill_path-over path buffer l,
)

-- What `bind` and `connect` get of an address that is within its bounds: an abstract name is a zero
-- and the name, whatever stood in the address before; a path of the file system is the path and a
-- terminator, followed by the rest of the 108 bytes as they were.
pub covered-fill_path :
    (path buffer : Bytes)
    → length buffer ≡ path_size
    → suc (length path) < path_size
    → (name : Bytes) × (file : Bytes) × (fill_path true path buffer ≡ some name)
      × (fill_path false path buffer ≡ some file)
      × (covered true path name ≡ 0 ∷ path)
      × (covered false path file ≡ path ++ (0 ∷ behind (length path) buffer))
unfolding covered
covered-fill_path path buffer l h = (
  0 ∷ (path ++ (0 ∷ behind (length path) (drop 1 buffer))),
  path ++ (0 ∷ behind (length path) buffer),
  fill_path-abstract path buffer l h,
  fill_path-file path buffer l (omega arith),
  take-append (1 + length path) (0 ∷ path) (0 ∷ behind (length path) (drop 1 buffer)) (omega arith),
  take_whole path_size (path ++ (0 ∷ behind (length path) buffer)) (
      omega (
        arith,
        length-append path (0 ∷ behind (length path) buffer),
        length-drop (length path) buffer,
        length-drop 1 (drop (length path) buffer),
      )),
)
