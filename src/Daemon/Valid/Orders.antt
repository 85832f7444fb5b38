-- ===== src/Daemon/Valid/Orders.antt =====
-- The maps of the daemon under the operations of `std::map`.
use netevent.Prelude.{◌≡◌, refl, inl, inr, true, false, [], ◌∷◌, Bytes, arith, Bool-cases}
use netevent.Daemon.Map.{Map, same_key, emplace, erase, string_lt}
use netevent.Daemon.Valid.{AllAbove, Ascending}

string_lt_trans :
    (a b c : Bytes) → string_lt a b ≡ true → string_lt b c ≡ true → string_lt a c ≡ true
unfolding string_lt
string_lt_trans [] [] c h k = ground arith
string_lt_trans [] (y ∷ b) [] h k = ground arith
string_lt_trans [] (y ∷ b) (z ∷ c) h k = refl
string_lt_trans (x ∷ a) [] c h k = ground arith
string_lt_trans (x ∷ a) (y ∷ b) [] h k = ground arith
string_lt_trans (x ∷ a) (y ∷ b) (z ∷ c) h k = ground (arith, string_lt_trans a b c)

-- Names are compared from both sides.
pub same_above : (k j : Bytes) → string_lt j k ≡ true → same_key string_lt k j ≡ false
same_above k j h = ground arith

pub same_below : (k j : Bytes) → string_lt k j ≡ true → same_key string_lt k j ≡ false
same_below k j h = ground arith

above_other :
    (k j : Bytes) → same_key string_lt k j ≡ false → string_lt k j ≡ false → string_lt j k ≡ true
above_other k j s h = ground arith

module _ {V : Type 0} where
  pub AllAbove-below :
      (i j : Bytes) (m : Map Bytes V) → string_lt i j ≡ true → AllAbove j m → AllAbove i m
  AllAbove-below i j [] h a = tt
  AllAbove-below i j ((k, v) ∷ m) h a = (string_lt_trans i j k h a.0, AllAbove-below i j m h a.1)

  AllAbove-emplace :
      (i k : Bytes) (v : V) (m : Map Bytes V)
      → string_lt i k ≡ true
      → AllAbove i m
      → AllAbove i (emplace string_lt k v m)
  unfolding emplace
  AllAbove-emplace i k v [] h a = (h, tt)
  AllAbove-emplace i k v ((j, w) ∷ m) h a = elim (Bool-cases (same_key string_lt k j)) [
    | inl e ↦ rw e a
    | inr e ↦ elim (Bool-cases (string_lt k j)) [
      | inl l ↦ rw (e, l) (h, a)
      | inr l ↦ rw (e, l) (a.0, AllAbove-emplace i k v m h a.1)
    ]
  ]

  pub emplace-Ascending :
      (k : Bytes) (v : V) (m : Map Bytes V) → Ascending m → Ascending (emplace string_lt k v m)
  unfolding emplace
  emplace-Ascending k v [] a = (tt, tt)
  emplace-Ascending k v ((j, w) ∷ m) a = elim (Bool-cases (same_key string_lt k j)) [
    | inl e ↦ rw e a
    | inr e ↦ elim (Bool-cases (string_lt k j)) [
      | inl l ↦ rw (e, l) ((l, AllAbove-below k j m l a.0), a)
      | inr l ↦
          rw (e, l)
            (AllAbove-emplace j k v m (above_other k j e l) a.0, emplace-Ascending k v m a.1)
    ]
  ]

  AllAbove-erase : (i k : Bytes) (m : Map Bytes V) → AllAbove i m → AllAbove i (erase string_lt k m)
  unfolding erase
  AllAbove-erase i k [] a = tt
  AllAbove-erase i k ((j, w) ∷ m) a = elim (Bool-cases (same_key string_lt k j)) [
    | inl e ↦ rw e a.1
    | inr e ↦ rw e (a.0, AllAbove-erase i k m a.1)
  ]

  pub erase-Ascending :
      (k : Bytes) (m : Map Bytes V) → Ascending m → Ascending (erase string_lt k m)
  unfolding erase
  erase-Ascending k [] a = tt
  erase-Ascending k ((j, w) ∷ m) a = elim (Bool-cases (same_key string_lt k j)) [
    | inl e ↦ rw e a.1
    | inr e ↦ rw e (AllAbove-erase j k m a.0, erase-Ascending k m a.1)
  ]
