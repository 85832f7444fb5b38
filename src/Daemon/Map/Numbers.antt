-- ===== src/Daemon/Map/Numbers.antt =====
-- Maps with numbers as keys, in ascending order.
use netevent.Prelude.{
  ℕ, ◌<◌, ◌≡◌, refl, inl, inr, Bool, true, false, [], ◌∷◌, none, some, ltb, ◌==◌, if◌then◌else◌,
  arith, Bool-cases,
}
use netevent.Daemon.Map.{Map, same_key, find, assign, erase}

module _ {V : Type 0} where
  -- Every key is above a number.
  abbrev pub AllAbove : ℕ → Map ℕ V → Type 0
  AllAbove k [] = Unit {0}
  AllAbove k ((j, v) ∷ m) = (k < j) × AllAbove k m

  abbrev pub Ascending : Map ℕ V → Type 0
  Ascending [] = Unit {0}
  Ascending ((j, v) ∷ m) = AllAbove j m × Ascending m

  AllAbove-below : (i j : ℕ) (m : Map ℕ V) → i < j → AllAbove j m → AllAbove i m
  AllAbove-below i j [] h a = tt
  AllAbove-below i j ((k, v) ∷ m) h a = (omega arith, AllAbove-below i j m h a.1)

  find-above : (k : ℕ) (m : Map ℕ V) → AllAbove k m → find ltb k m ≡ none
  unfolding find
  find-above k [] a = refl
  find-above k ((j, v) ∷ m) a = ground (arith, find-above k m a.1)

  AllAbove-pick :
      (i : ℕ) (b : Bool) (x y : Map ℕ V)
      → AllAbove i x
      → AllAbove i y
      → AllAbove i (if b then x else y)
  AllAbove-pick i true x y hx hy = hx
  AllAbove-pick i false x y hx hy = hy

  Ascending-pick :
      (b : Bool) (x y : Map ℕ V)
      → (b ≡ true → Ascending x)
      → (b ≡ false → Ascending y)
      → Ascending (if b then x else y)
  Ascending-pick true x y hx hy = hx refl
  Ascending-pick false x y hx hy = hy refl

  AllAbove-assign :
      (i k : ℕ) (v : V) (m : Map ℕ V) → i < k → AllAbove i m → AllAbove i (assign ltb k v m)
  unfolding assign
  AllAbove-assign i k v [] h a = (h, tt)
  AllAbove-assign i k v ((j, w) ∷ m) h a = AllAbove-pick i (same_key ltb k j) ((j, v) ∷ m) _ a (
      AllAbove-pick i (ltb k j) ((k, v) ∷ (j, w) ∷ m) _ (h, a) (a.0, AllAbove-assign i k v m h a.1))

  pub assign-Ascending : (k : ℕ) (v : V) (m : Map ℕ V) → Ascending m → Ascending (assign ltb k v m)
  unfolding assign
  assign-Ascending k v [] a = (tt, tt)
  assign-Ascending k v ((j, w) ∷ m) a =
      Ascending-pick (same_key ltb k j) ((j, v) ∷ m) _ (λ e. a)
        (λ e.
          Ascending-pick (ltb k j) ((k, v) ∷ (j, w) ∷ m) _
            (λ l. let below : k < j = ground arith in ((below, AllAbove-below k j m below a.0), a))
            (λ l. (AllAbove-assign j k v m (ground arith) a.0, assign-Ascending k v m a.1)))

  AllAbove-erase : (i k : ℕ) (m : Map ℕ V) → AllAbove i m → AllAbove i (erase ltb k m)
  unfolding erase
  AllAbove-erase i k [] a = tt
  AllAbove-erase i k ((j, w) ∷ m) a = elim (Bool-cases (same_key ltb k j)) [
    | inl e ↦ rw (e, AllAbove) (a.1)
    | inr e ↦ rw (e, AllAbove) (a.0, AllAbove-erase i k m a.1)
  ]

  pub erase-Ascending : (k : ℕ) (m : Map ℕ V) → Ascending m → Ascending (erase ltb k m)
  unfolding erase
  erase-Ascending k [] a = tt
  erase-Ascending k ((j, w) ∷ m) a = elim (Bool-cases (same_key ltb k j)) [
    | inl e ↦ rw (e, Ascending) (a.1)
    | inr e ↦ rw (e, Ascending) (AllAbove-erase j k m a.0, erase-Ascending k m a.1)
  ]

  pub find-assign_num :
      (j k : ℕ) (v : V) (m : Map ℕ V)
      → find ltb j (assign ltb k v m) ≡ (if j == k then some v else find ltb j m)
  unfolding find assign
  find-assign_num j k v [] = ground arith
  find-assign_num j k v ((i, w) ∷ m) = ground (arith, find-assign_num j k v m)

  pub find-erase_num :
      (j k : ℕ) (m : Map ℕ V)
      → Ascending m
      → find ltb j (erase ltb k m) ≡ (if j == k then none else find ltb j m)
  unfolding find erase
  find-erase_num j k [] a = ground arith
  find-erase_num j k ((i, w) ∷ m) a = ground (arith, find-erase_num j k m a.1, find-above i m a.0)
