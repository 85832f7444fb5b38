-- ===== src/Handle/Owners.antt =====
-- Every descriptor has at most one owner, and is closed at most once.
use mathlib.Core.Option.{none-ne-some, some-injective}
use netevent.Prelude.{
  ℕ, ◌≡◌, refl, sym, ap, ◌∙◌, ◌⊎◌, inl, inr, true, false, List, [], ◌∷◌, Option, none, some, ◌==◌,
  if◌then◌else◌, arith, Bool-cases, Option-cases,
}
use netevent.Handle.{
  Handles, with_fd, system_open, system_close, construct, acquire, pass, construct_default,
  construct_moved, close_fd, close, assign_moved, release, destroy_fd, destroy, Operation, acquired,
  passed, defaulted, closed, released, destroyed, moved, assigned, perform, perform_all,
}

-- The descriptors of handles are open, no two handles have the same one, and no descriptor was
-- closed that was not open.
pub record Owned (s : Handles) : Type 0 where
  pub are_open : (i fd : ℕ) → s.fd i ≡ some fd → s.opened fd ≡ true
  pub one_owner : (i j fd : ℕ) → s.fd i ≡ some fd → s.fd j ≡ some fd → i ≡ j
  pub no_bad_closes : s.bad_closes ≡ 0

no_fd : {A : Type 0} {fd : ℕ} → none ≡ some fd → A
no_fd {fd = fd} h = absurd (none-ne-some fd h)

-- The holder of each descriptor held it before, perhaps as another variable.
kept-Owned :
    (s t : Handles) (source : ℕ → ℕ)
    → ((k fd : ℕ) → t.fd k ≡ some fd → s.fd (source k) ≡ some fd)
    → ((k l fd : ℕ) → t.fd k ≡ some fd → t.fd l ≡ some fd → source k ≡ source l → k ≡ l)
    → t.opened ≡ s.opened
    → t.bad_closes ≡ s.bad_closes
    → Owned s
    → Owned t
kept-Owned s t source held apart o b v = record {
  are_open = λ k fd h. rw o (v.are_open (source k) fd (held k fd h));
  one_owner = λ k l fd h m.
      apart k l fd h m (v.one_owner (source k) (source l) fd (held k fd h) (held l fd m));
  no_bad_closes = b ∙ v.no_bad_closes;
}

at_same : (i k : ℕ) (a b : Option ℕ) → k == i ≡ true → (if k == i then a else b) ≡ a
at_same i k a b e = rw e refl

at_other : (i k : ℕ) (a b : Option ℕ) → k == i ≡ false → (if k == i then a else b) ≡ b
at_other i k a b e = rw e refl

-- What holds a descriptor is not the emptied variable.
not_emptied :
    (i k fd : ℕ) (b : Option ℕ)
    → (if k == i then none else b) ≡ some fd
    → (k == i ≡ false) × (b ≡ some fd)
not_emptied i k fd b h = elim (Bool-cases (k == i)) [
  | inl e ↦ no_fd (sym (at_same i k none b e) ∙ h)
  | inr e ↦ (e, sym (at_other i k none b e) ∙ h)
]

emptied-Owned : (i : ℕ) (s : Handles) → Owned s → Owned (with_fd i none s)
emptied-Owned i s v =
    kept-Owned s (with_fd i none s) (λ k. k) (λ k fd h. (not_emptied i k fd (s.fd k) h).1)
      (λ k l fd h m e. e) refl refl v

abbrev origin : ℕ → ℕ → ℕ → ℕ
origin i j k = if k == i then j else k

moved_from :
    (i j k fd : ℕ) (s : Handles)
    → (with_fd i (s.fd j) s).fd k ≡ some fd
    → s.fd (origin i j k) ≡ some fd
moved_from i j k fd s h = elim (Bool-cases (k == i)) [
  | inl e ↦ rw e (sym (at_same i k (s.fd j) (s.fd k) e) ∙ h)
  | inr e ↦ rw e (sym (at_other i k (s.fd j) (s.fd k) e) ∙ h)
]

origin_apart : (i j k l : ℕ) → k == j ≡ false → l == j ≡ false → origin i j k ≡ origin i j l → k ≡ l
origin_apart i j k l h m e = ground arith

-- A descriptor that goes from one variable to another.
moved-Owned : (i j : ℕ) (s : Handles) → Owned s → Owned (with_fd j none (with_fd i (s.fd j) s))
moved-Owned i j s v =
    kept-Owned s (with_fd j none (with_fd i (s.fd j) s)) (origin i j)
      (λ k fd h. moved_from i j k fd s (not_emptied j k fd _ h).1)
      (λ k l fd h m e. origin_apart i j k l (not_emptied j k fd _ h).0 (not_emptied j l fd _ m).0 e)
      refl refl v

-- A descriptor that is closed by its owner.
closed-Owned :
    (i fd : ℕ) (s : Handles)
    → s.fd i ≡ some fd
    → Owned s
    → Owned (with_fd i none (system_close fd s))
unfolding system_close
closed-Owned i fd s h v =
    let e : s.opened fd ≡ true = v.are_open i fd h in
    rw e record {
      are_open = λ k x m.
          let (other, held) = not_emptied i k x (s.fd k) m in
          elim (Bool-cases (x == fd)) [
            | inl q ↦
                let same : x ≡ fd = ground arith in
                let owner : k ≡ i = v.one_owner k i x held (rw same h) in absurd (ground arith)
            | inr q ↦ rw q (v.are_open k x held)
          ];
      one_owner = λ k l x m n.
          v.one_owner k l x (not_emptied i k x (s.fd k) m).1 (not_emptied i l x (s.fd l) n).1;
      no_bad_closes = v.no_bad_closes;
    }

-- A descriptor that was not open has no owner.
fresh : (k fd : ℕ) (s : Handles) → Owned s → s.opened fd ≡ false → s.fd k ≡ some fd → ⊥
fresh k fd s v e h = let o : s.opened fd ≡ true = v.are_open k fd h in ground arith

taken :
    (i fd k x : ℕ) (s : Handles)
    → (with_fd i (some fd) s).fd k ≡ some x
    → ((k == i ≡ true) × (x ≡ fd)) ⊎ ((k == i ≡ false) × (s.fd k ≡ some x))
taken i fd k x s h = elim (Bool-cases (k == i)) [
  | inl e ↦ inl (e, sym (some-injective fd x (sym (at_same i k (some fd) (s.fd k) e) ∙ h)))
  | inr e ↦ inr (e, sym (at_other i k (some fd) (s.fd k) e) ∙ h)
]

acquire-Owned : (i fd : ℕ) (s : Handles) → s.opened fd ≡ false → Owned s → Owned (acquire i fd s)
unfolding acquire system_open construct
acquire-Owned i fd s e v = record {
  are_open = λ k x h. elim (taken i fd k x s h) [
    | inl (_, same) ↦ ground arith
    | inr (_, held) ↦ let o : s.opened x ≡ true = v.are_open k x held in ground arith
  ];
  one_owner = λ k l x h m. elim (taken i fd k x s h) [
    | inl (a, p) ↦ elim (taken i fd l x s m) [
      | inl (b, q) ↦ ground arith
      | inr (b, held) ↦ absurd (fresh l fd s v e (held ∙ ap some p))
    ]
    | inr (a, held) ↦ elim (taken i fd l x s m) [
      | inl (b, q) ↦ absurd (fresh k fd s v e (held ∙ ap some q))
      | inr (b, other) ↦ v.one_owner k l x held other
    ]
  ];
  no_bad_closes = v.no_bad_closes;
}

-- Who holds a descriptor behind `pass`: the new handle what the old one had, or one of the others.
passed_from :
    (i j k fd : ℕ) (s : Handles)
    → (with_fd i (s.fd j) (with_fd j none s)).fd k ≡ some fd
    → (s.fd (origin i j k) ≡ some fd) × ((k == i ≡ true) ⊎ (k == j ≡ false))
passed_from i j k fd s h = elim (Bool-cases (k == i)) [
  | inl e ↦ rw e (sym (at_same i k (s.fd j) _ e) ∙ h, inl refl)
  | inr e ↦
      let (other, held) = not_emptied j k fd (s.fd k) (sym (at_other i k (s.fd j) _ e) ∙ h) in
      rw e (held, inr other)
]

pass_apart :
    (i j k l : ℕ)
    → (k == i ≡ true) ⊎ (k == j ≡ false)
    → (l == i ≡ true) ⊎ (l == j ≡ false)
    → origin i j k ≡ origin i j l
    → k ≡ l
pass_apart i j k l h m e = ground arith

pass-Owned : (i j : ℕ) (s : Handles) → Owned s → Owned (pass i j s)
unfolding pass release construct
pass-Owned i j s v =
    kept-Owned s (with_fd i (s.fd j) (with_fd j none s)) (origin i j)
      (λ k fd h. (passed_from i j k fd s h).0)
      (λ k l fd h m e.
        pass_apart i j k l (passed_from i j k fd s h).1 (passed_from i j l fd s m).1 e)
      refl refl v

close-Owned : (i : ℕ) (s : Handles) → Owned s → Owned (close i s)
unfolding close
close-Owned i s v = elim (Option-cases (s.fd i)) [
  | inl e ↦ rw (e, close_fd) v
  | inr (fd, e) ↦ rw (e, close_fd) (closed-Owned i fd s e v)
]

destroy-Owned : (i : ℕ) (s : Handles) → Owned s → Owned (destroy i s)
unfolding destroy
destroy-Owned i s v = elim (Option-cases (s.fd i)) [
  | inl e ↦ rw (e, destroy_fd) (emptied-Owned i s v)
  | inr (fd, e) ↦ rw (e, destroy_fd) (closed-Owned i fd s e v)
]

-- A descriptor that the system returns was not open.
abbrev pub IsFresh : Operation → Handles → Type 0
IsFresh (acquired i fd) s = s.opened fd ≡ false
IsFresh _ s = Unit {0}

abbrev pub AllFresh : List Operation → Handles → Type 0
AllFresh [] s = Unit {0}
AllFresh (o ∷ os) s = IsFresh o s × AllFresh os (perform o s)

perform-Owned : (o : Operation) (s : Handles) → IsFresh o s → Owned s → Owned (perform o s)
unfolding perform construct_default construct_moved release assign_moved
perform-Owned (acquired i fd) s f v = acquire-Owned i fd s f v
perform-Owned (passed i j) s f v = pass-Owned i j s v
perform-Owned (defaulted i) s f v = emptied-Owned i s v
perform-Owned (closed i) s f v = close-Owned i s v
perform-Owned (released i) s f v = emptied-Owned i s v
perform-Owned (destroyed i) s f v = destroy-Owned i s v
perform-Owned (moved i j) s f v = moved-Owned i j s v
perform-Owned (assigned i j) s f v = moved-Owned i j (close i s) (close-Owned i s v)

-- Handles that own their descriptors keep owning them, whatever is done with them in any order: a
-- handle takes a descriptor that a system call has just returned, which was not open, or one that
-- another handle has released; it is moved, assigned, closed, released or destroyed. Every descriptor
-- of a handle is open, no two handles have the same one, and no call of `::close` was for a descriptor
-- that was not open, so that nothing is closed twice.
pub perform_all-Owned :
    (os : List Operation) (s : Handles) → AllFresh os s → Owned s → Owned (perform_all os s)
unfolding perform_all
perform_all-Owned [] s f v = v
perform_all-Owned (o ∷ os) s (f, fs) v =
    perform_all-Owned os (perform o s) fs (perform-Owned o s f v)
