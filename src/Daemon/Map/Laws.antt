-- ===== src/Daemon/Map/Laws.antt =====
-- Lookups in a map after an assignment.
use netevent.Prelude.{
  ◌≡◌, refl, ap, ◌∙◌, inl, inr, Bool, true, false, [], ◌∷◌, Option, some, if◌then◌else◌, Bool-cases,
}
use netevent.Daemon.Map.{Map, same_key, find, assign}

module _ {K V : Type 0} (lt : K → K → Bool) where
  pub find-assign_self :
      (k : K) (v : V) (m : Map K V) → same_key lt k k ≡ true → find lt k (assign lt k v m) ≡ some v
  unfolding find assign
  find-assign_self k v [] r = rw r refl
  find-assign_self k v ((i, w) ∷ m) r = elim (Bool-cases (same_key lt k i)) [
    | inl e ↦ rw e (rw e refl)
    | inr e ↦ elim (Bool-cases (lt k i)) [
      | inl l ↦ rw (e, l) (rw r refl)
      | inr l ↦ rw (e, l) (rw e (find-assign_self k v m r))
    ]
  ]

  pub find-assign_ne :
      (j k : K) (v : V) (m : Map K V)
      → ((i : K) → same_key lt j i ≡ true → same_key lt k i ≡ same_key lt k j)
      → same_key lt k j ≡ false
      → find lt k (assign lt j v m) ≡ find lt k m
  unfolding find assign
  find-assign_ne j k v [] c n = rw n refl
  find-assign_ne j k v ((i, w) ∷ m) c n = elim (Bool-cases (same_key lt j i)) [
    | inl e ↦ rw e (rw (c i e ∙ n) refl)
    | inr e ↦ elim (Bool-cases (lt j i)) [
      | inl l ↦ rw (e, l) (rw n refl)
      | inr l ↦
          rw (e, l)
            (ap (λ (r : Option V). if same_key lt k i then some w else r)
              (find-assign_ne j k v m c n))
    ]
  ]
