-- ===== src/Daemon/Valid/Entries.antt =====
-- Identifiers and hotkeys under the operations of their maps.
use netevent.Prelude.{
  ℕ, ◌^◌, ◌<◌, ◌≡◌, ◌≢◌, refl, sym, ap, subst, ◌∙◌, inl, inr, true, false, List, [], ◌∷◌, ◌++◌,
  some, Bytes, ◌==◌, arith, Bool-cases,
}
use mathlib.Core.Option.{none-ne-some, some-injective}
use netevent.Text.Event.{ev_cnt}
use netevent.Daemon.Map.{
  Map, HotkeyDef, same_key, find, assign, emplace, erase, string_lt, hotkey_lt,
}
use netevent.Daemon.State.{Input}
use netevent.Daemon.Queue.{contains, without_device}
use netevent.Daemon.Inputs.{input_at}
use netevent.Daemon.Ids.{same_string}
use netevent.Daemon.Valid.{
  registry, AllAbove, Ascending, AllFit, values, Listed, HotkeysFit, Distinct,
}
use netevent.Daemon.Valid.Orders.{same_above}
use netevent.Daemon.Valid.Registry.{find_first, find_later}

pub AllFit-emplace :
    (k : Bytes) (id : ℕ) (m : Map Bytes ℕ)
    → id < 2 ^ 16
    → AllFit (values m)
    → AllFit (values (emplace string_lt k id m))
unfolding emplace
AllFit-emplace k id [] h a = (h, tt)
AllFit-emplace k id ((j, w) ∷ m) h a = elim (Bool-cases (same_key string_lt k j)) [
  | inl e ↦ rw e a
  | inr e ↦ elim (Bool-cases (string_lt k j)) [
    | inl l ↦ rw (e, l) (h, a)
    | inr l ↦ rw (e, l) (a.0, AllFit-emplace k id m h a.1)
  ]
]

pub AllFit-erase :
    (k : Bytes) (m : Map Bytes ℕ) → AllFit (values m) → AllFit (values (erase string_lt k m))
unfolding erase
AllFit-erase k [] a = tt
AllFit-erase k ((j, w) ∷ m) a = elim (Bool-cases (same_key string_lt k j)) [
  | inl e ↦ rw e a.1
  | inr e ↦ rw e (a.0, AllFit-erase k m a.1)
]

pub Listed-emplace :
    (i : ℕ) (k : Bytes) (id : ℕ) (m : Map Bytes ℕ)
    → Listed i m
    → Listed i (emplace string_lt k id m)
unfolding emplace
Listed-emplace i k id [] h = absurd h
Listed-emplace i k id ((j, w) ∷ m) h = elim (Bool-cases (same_key string_lt k j)) [
  | inl e ↦ rw e h
  | inr e ↦ elim (Bool-cases (string_lt k j)) [
    | inl l ↦ rw (e, l) (inr h)
    | inr l ↦
        rw (e, l) (elim h [ inl here ↦ inl here | inr there ↦ inr (Listed-emplace i k id m there) ])
  ]
]

-- The identifiers but the one that goes.
pub Listed-erase :
    (i id : ℕ) (k : Bytes) (m : Map Bytes ℕ)
    → find string_lt k m ≡ some id
    → i ≢ id
    → Listed i m
    → Listed i (erase string_lt k m)
unfolding erase find
Listed-erase i id k [] f n h = absurd h
Listed-erase i id k ((j, w) ∷ m) f n h = elim (Bool-cases (same_key string_lt k j)) [
  | inl e ↦ rw e (elim h [
    | inl here ↦ absurd (n (here ∙ some-injective w id (sym (find_first k j w m e) ∙ f)))
    | inr there ↦ there
  ])
  | inr e ↦ rw e (elim h [
    | inl here ↦ inl here
    | inr there ↦ inr (Listed-erase i id k m (sym (find_later k j w m e) ∙ f) n there)
  ])
]

-- An input that is found has its identifier in use.
pub find-Listed :
    (k : Bytes) (i : Input) (m : Map Bytes Input)
    → find string_lt k m ≡ some i
    → Listed i.id (registry m)
unfolding find
find-Listed k i [] h = absurd (none-ne-some _ h)
find-Listed k i ((j, w) ∷ m) h = elim (Bool-cases (same_key string_lt k j)) [
  | inl e ↦
      inl (ap (λ (x : Input). x.id) (sym (some-injective w i (sym (find_first k j w m e) ∙ h))))
  | inr e ↦ inr (find-Listed k i m (sym (find_later k j w m e) ∙ h))
]

module _ (fd : ℕ) where
  input_at_first :
      (k : Bytes) (w : Input) (m : Map Bytes Input)
      → w.device.fd == fd ≡ true
      → input_at fd ((k, w) ∷ m) ≡ some (k, w)
  unfolding input_at
  input_at_first k w m e = rw e refl

  input_at_later :
      (k : Bytes) (w : Input) (m : Map Bytes Input)
      → w.device.fd == fd ≡ false
      → input_at fd ((k, w) ∷ m) ≡ input_at fd m
  unfolding input_at
  input_at_later k w m e = rw e refl

  input_at-AllAbove :
      (j name : Bytes) (i : Input) (m : Map Bytes Input)
      → AllAbove j (registry m)
      → input_at fd m ≡ some (name, i)
      → string_lt j name ≡ true
  unfolding input_at
  input_at-AllAbove j name i [] a h = absurd (none-ne-some _ h)
  input_at-AllAbove j name i ((k, w) ∷ m) a h = elim (Bool-cases (w.device.fd == fd)) [
    | inl e ↦
        subst (λ (p : Bytes × Input). string_lt j p.0 ≡ true)
          (some-injective (k, w) (name, i) (sym (input_at_first k w m e) ∙ h)) a.0
    | inr e ↦ input_at-AllAbove j name i m a.1 (sym (input_at_later k w m e) ∙ h)
  ]

  -- The input with a descriptor is found by its name.
  pub input_at-find :
      (name : Bytes) (i : Input) (m : Map Bytes Input)
      → Ascending (registry m)
      → input_at fd m ≡ some (name, i)
      → find string_lt name (registry m) ≡ some i.id
  unfolding input_at
  input_at-find name i [] a h = absurd (none-ne-some _ h)
  input_at-find name i ((k, w) ∷ m) a h = elim (Bool-cases (w.device.fd == fd)) [
    | inl e ↦
        subst (λ (p : Bytes × Input). find string_lt p.0 ((k, w.id) ∷ registry m) ≡ some p.1.id)
          (some-injective (k, w) (name, i) (sym (input_at_first k w m e) ∙ h))
          (find_first k k w.id (registry m) (same_string k))
    | inr e ↦
        let later : input_at fd m ≡ some (name, i) = sym (input_at_later k w m e) ∙ h in
        find_later name k w.id (registry m)
          (same_above name k (input_at-AllAbove k name i m a.0 later))
        ∙ input_at-find name i m a.1 later
  ]

-- Hotkeys.
pub HotkeysFit-mono :
    (ids ids' : Map Bytes ℕ) (m : Map HotkeyDef Bytes)
    → ((i : ℕ) → Listed i ids → Listed i ids')
    → HotkeysFit ids m
    → HotkeysFit ids' m
HotkeysFit-mono ids ids' [] f h = tt
HotkeysFit-mono ids ids' ((def, c) ∷ m) f h =
    ((h.0.0, f def.device h.0.1), HotkeysFit-mono ids ids' m f h.1)

pub without_device-HotkeysFit :
    (id : ℕ) (ids ids' : Map Bytes ℕ) (m : Map HotkeyDef Bytes)
    → ((i : ℕ) → i ≢ id → Listed i ids → Listed i ids')
    → HotkeysFit ids m
    → HotkeysFit ids' (without_device id m)
unfolding without_device
without_device-HotkeysFit id ids ids' [] f h = tt
without_device-HotkeysFit id ids ids' ((def, c) ∷ m) f h = elim (Bool-cases (def.device == id)) [
  | inl e ↦ rw e (without_device-HotkeysFit id ids ids' m f h.1)
  | inr e ↦
      rw e
        ((h.0.0, f def.device (ground arith) h.0.1), without_device-HotkeysFit id ids ids' m f h.1)
]

pub assign-HotkeysFit :
    (ids : Map Bytes ℕ) (def : HotkeyDef) (command : Bytes) (m : Map HotkeyDef Bytes)
    → def.type < ev_cnt
    → Listed def.device ids
    → HotkeysFit ids m
    → HotkeysFit ids (assign hotkey_lt def command m)
unfolding assign
assign-HotkeysFit ids def command [] t l h = ((t, l), tt)
assign-HotkeysFit ids def command ((j, w) ∷ m) t l h =
    elim (Bool-cases (same_key hotkey_lt def j)) [
      | inl e ↦ rw e h
      | inr e ↦ elim (Bool-cases (hotkey_lt def j)) [
        | inl b ↦ rw (e, b) ((t, l), h)
        | inr b ↦ rw (e, b) (h.0, assign-HotkeysFit ids def command m t l h.1)
      ]
    ]

pub erase-HotkeysFit :
    (ids : Map Bytes ℕ) (def : HotkeyDef) (m : Map HotkeyDef Bytes)
    → HotkeysFit ids m
    → HotkeysFit ids (erase hotkey_lt def m)
unfolding erase
erase-HotkeysFit ids def [] h = tt
erase-HotkeysFit ids def ((j, w) ∷ m) h = elim (Bool-cases (same_key hotkey_lt def j)) [
  | inl e ↦ rw e h.1
  | inr e ↦ rw e (h.0, erase-HotkeysFit ids def m h.1)
]

-- The queue of removals.
contains-append :
    (fd x : ℕ) (q : List ℕ)
    → contains q x ≡ false
    → fd == x ≡ false
    → contains (q ++ (fd ∷ [])) x ≡ false
unfolding contains
contains-append fd x [] h e = ground arith
contains-append fd x (y ∷ q) h e = ground (arith, contains-append fd x q)

pub Distinct-append :
    (fd : ℕ) (q : List ℕ) → contains q fd ≡ false → Distinct q → Distinct (q ++ (fd ∷ []))
unfolding contains
Distinct-append fd [] h d = (refl, tt)
Distinct-append fd (y ∷ q) h d =
    (contains-append fd y q d.0 (ground arith), Distinct-append fd q (ground arith) d.1)
