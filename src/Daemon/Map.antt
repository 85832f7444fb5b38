-- ===== src/Daemon/Map.antt =====
-- `std::map`, as the list of its entries in ascending order of their keys. Two keys are the same
-- if neither is less than the other. Also the orders of the keys that the daemon uses.
pub mod Laws
pub mod Numbers
use netevent.Prelude.{
  ℕ, ◌+◌, ◌%◌, ◌^◌, Bool, true, false, not, ◌&&◌, ◌||◌, List, [], ◌∷◌, Option, none, some, Bytes,
  ltb, ◌==◌, if◌then◌else◌,
}

abbrev pub Map : Type 0 → Type 0 → Type 0
Map K V = List (K × V)

abbrev pub same_key : {K : Type 0} → (K → K → Bool) → K → K → Bool
same_key lt a b = not (lt a b) && not (lt b a)

module _ {K V : Type 0} (lt : K → K → Bool) where
  -- `find`
  unfoldable pub find : K → Map K V → Option V
  find k [] = none
  find k ((j, v) ∷ m) = if same_key lt k j then some v else find k m

  -- `m[k] = v`
  unfoldable pub assign : K → V → Map K V → Map K V
  assign k v [] = (k, v) ∷ []
  assign k v ((j, w) ∷ m) =
      if same_key lt k j
      then (j, v) ∷ m
      else if lt k j
      then (k, v) ∷ (j, w) ∷ m
      else (j, w) ∷ assign k v m

  -- `emplace`, which leaves an entry that is there.
  unfoldable pub emplace : K → V → Map K V → Map K V
  emplace k v [] = (k, v) ∷ []
  emplace k v ((j, w) ∷ m) =
      if same_key lt k j
      then (j, w) ∷ m
      else if lt k j
      then (k, v) ∷ (j, w) ∷ m
      else (j, w) ∷ emplace k v m

  -- `erase`
  unfoldable pub erase : K → Map K V → Map K V
  erase k [] = []
  erase k ((j, w) ∷ m) = if same_key lt k j then m else (j, w) ∷ erase k m

-- `operator<` of `std::string`
unfoldable pub string_lt : Bytes → Bytes → Bool
string_lt [] [] = false
string_lt [] (y ∷ ys) = true
string_lt (x ∷ xs) [] = false
string_lt (x ∷ xs) (y ∷ ys) = ltb x y || x == y && string_lt xs ys

-- `HotkeyDef`; the value is a 32-bit pattern.
pub record HotkeyDef : Type 0 where
  pub device : ℕ
  pub type : ℕ
  pub code : ℕ
  pub value : ℕ

-- The order of `int32_t` on patterns.
abbrev pub int32_lt : ℕ → ℕ → Bool
int32_lt a b = ltb ((a + 2 ^ 31) % 2 ^ 32) ((b + 2 ^ 31) % 2 ^ 32)

-- `HotkeyDef::operator<`
unfoldable pub hotkey_lt : HotkeyDef → HotkeyDef → Bool
hotkey_lt l r =
    ltb l.device r.device
    || l.device == r.device
      && (ltb l.type r.type
          || l.type == r.type
            && (ltb l.code r.code || l.code == r.code && int32_lt l.value r.value))
