-- ===== src/Daemon/Valid/Registry.antt =====
-- The registry of the inputs under the operations of their map.
use netevent.Prelude.{
  ℕ, ◌≡◌, refl, sym, ap, ◌∙◌, inl, inr, true, false, [], ◌∷◌, none, some, Bytes, ◌==◌, arith,
  Bool-cases,
}
use mathlib.Core.Option.{none-ne-some, some-injective}
use netevent.Device.In.{InDevice}
use netevent.Daemon.Map.{Map, same_key, find, assign, emplace, erase, string_lt}
use netevent.Daemon.State.{Input}
use netevent.Daemon.Inputs.{at_eof}
use netevent.Daemon.Valid.{registry, AllAbove, Ascending}
use netevent.Daemon.Valid.Orders.{AllAbove-below, same_below}

module _ {V : Type 0} where
  pub find_first :
      (k j : Bytes) (w : V) (m : Map Bytes V)
      → same_key string_lt k j ≡ true
      → find string_lt k ((j, w) ∷ m) ≡ some w
  unfolding find
  find_first k j w m e = rw e refl

  pub find_later :
      (k j : Bytes) (w : V) (m : Map Bytes V)
      → same_key string_lt k j ≡ false
      → find string_lt k ((j, w) ∷ m) ≡ find string_lt k m
  unfolding find
  find_later k j w m e = rw e refl

pub registry-emplace :
    (k : Bytes) (i : Input) (m : Map Bytes Input)
    → registry (emplace string_lt k i m) ≡ emplace string_lt k i.id (registry m)
unfolding emplace
registry-emplace k i [] = refl
registry-emplace k i ((j, w) ∷ m) = elim (Bool-cases (same_key string_lt k j)) [
  | inl e ↦ rw e refl
  | inr e ↦ elim (Bool-cases (string_lt k j)) [
    | inl l ↦ rw (e, l) refl
    | inr l ↦ rw (e, l) (ap (◌∷◌ (j, w.id)) (registry-emplace k i m))
  ]
]

pub registry-erase :
    (k : Bytes) (m : Map Bytes Input)
    → registry (erase string_lt k m) ≡ erase string_lt k (registry m)
unfolding erase
registry-erase k [] = refl
registry-erase k ((j, w) ∷ m) = elim (Bool-cases (same_key string_lt k j)) [
  | inl e ↦ rw e refl
  | inr e ↦ rw e (ap (◌∷◌ (j, w.id)) (registry-erase k m))
]

find-above : (k : Bytes) (m : Map Bytes Input) → AllAbove k (registry m) → find string_lt k m ≡ none
unfolding find
find-above k [] a = refl
find-above k ((j, w) ∷ m) a = rw (same_below k j a.0) (find-above k m a.1)

-- A device that is changed in place keeps its identifier.
pub registry-assign :
    (k : Bytes) (i : Input) (dev : InDevice) (m : Map Bytes Input)
    → Ascending (registry m)
    → find string_lt k m ≡ some i
    → registry (assign string_lt k (record i { device = dev }) m) ≡ registry m
unfolding assign find
registry-assign k i dev [] a h = ground arith
registry-assign k i dev ((j, w) ∷ m) a h = elim (Bool-cases (same_key string_lt k j)) [
  | inl e ↦ rw e (
      ap (λ (x : Input). (j, x.id) ∷ registry m)
        (sym (some-injective w i (sym (find_first k j w m e) ∙ h))))
  | inr e ↦ elim (Bool-cases (string_lt k j)) [
    | inl l ↦ absurd (
        none-ne-some _ (
          sym (find-above k m (AllAbove-below k j (registry m) l a.0))
          ∙ sym (find_later k j w m e)
          ∙ h))
    | inr l ↦
        rw (e, l)
          (ap (◌∷◌ (j, w.id)) (registry-assign k i dev m a.1 (sym (find_later k j w m e) ∙ h)))
  ]
]

pub registry-at_eof : (fd : ℕ) (m : Map Bytes Input) → registry (at_eof fd m) ≡ registry m
registry-at_eof fd [] = refl
registry-at_eof fd ((j, w) ∷ m) = elim (Bool-cases (w.device.fd == fd)) [
  | inl e ↦ rw e refl
  | inr e ↦ rw e (ap (◌∷◌ (j, w.id)) (registry-at_eof fd m))
]
