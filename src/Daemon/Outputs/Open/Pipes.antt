-- ===== src/Daemon/Outputs/Open/Pipes.antt =====
-- Outputs that are files or the input of a shell.
use netevent.Prelude.{
  ℕ, ◌≡◌, refl, ap, ◌∙◌, inl, inr, Bool, true, false, Option, none, some, ◌==◌, if◌then◌else◌,
  arith, Bool-cases,
}
use netevent.Handle.{Handles, system_open, acquire, close, destroy}
use netevent.Daemon.Outputs.Open.{
  System, Opened, opened, threw, shell, overflows, with_file, dup_to_stdin,
}
use netevent.Daemon.Outputs.Open.Drops.{
  Same, Adds, acquire-Adds, destroy-Same, close-Drops, destroy-Drops, destroy-empty, acquire-other,
  destroy-other, close-other, close_emptied,
}

-- The same in front of the assignment to `handle`, which is empty.
abbrev pub Ready : Handles → Opened → Type 0
Ready s (opened i t) =
    (fd : ℕ) × (t.fd i ≡ some fd) × Adds fd s t × (t.fd 0 ≡ s.fd 0) × (0 == i ≡ false)
Ready s (threw t) = Same s t × (t.fd 0 ≡ s.fd 0)
Ready s (shell t) = Adds 0 s t
Ready s overflows = Unit {0}

module _ (y : System) (s : Handles) where
  pub with_file-Ready :
      (o : Option ℕ) → ((fd : ℕ) → o ≡ some fd → s.opened fd ≡ false) → Ready s (with_file y o s)
  with_file-Ready none f = (((λ n. refl), refl), refl)
  with_file-Ready (some fd) f =
      let (h, a) = acquire-Adds 1 fd s in
      let kept : (acquire 1 fd s).fd 0 ≡ s.fd 0 = acquire-other 1 0 fd s refl in
      let gone : Same s (destroy 1 (acquire 1 fd s))
          × ((destroy 1 (acquire 1 fd s)).fd 0 ≡ s.fd 0) =
        (
          destroy-Same 1 fd s (acquire 1 fd s) (f fd refl) h a,
          destroy-other 1 0 (acquire 1 fd s) refl ∙ kept,
        ) in
      elim (Bool-cases y.gets_flags) [
        | inr no_flags ↦ rw no_flags gone
        | inl flags ↦ elim (Bool-cases y.sets_flags) [
          | inr fails ↦ rw (flags, fails) gone
          | inl works ↦ rw (flags, works) (fd, h, a, kept, refl)
        ]
      ]

  -- The two ends of a pipe in their handles.
  module _ (r w : ℕ) (fr : s.opened r ≡ false) (fw : s.opened w ≡ false)
      (apart : r == w ≡ false) where
    abbrev pub piped : Handles
    piped = acquire 2 w (acquire 1 r s)

    w_fresh : (acquire 1 r s).opened w ≡ false
    w_fresh = let (h, (o, b)) = acquire-Adds 1 r s in ground (arith, o w)

    abbrev HasPipe : Handles → Type 0
    HasPipe t =
        (t.fd 1 ≡ some r)
        × (t.fd 2 ≡ some w)
        × ((n : ℕ) → t.opened n ≡ (if n == w then true else if n == r then true else s.opened n))
        × (t.bad_closes ≡ s.bad_closes)
        × (t.fd 0 ≡ s.fd 0)

    piped-HasPipe : HasPipe piped
    piped-HasPipe =
        let (h1, (o1, b1)) = acquire-Adds 1 r s in
        let (h2, (o2, b2)) = acquire-Adds 2 w (acquire 1 r s) in
        (
          acquire-other 2 1 w (acquire 1 r s) refl ∙ h1,
          h2,
          (λ n. o2 n ∙ ap (λ (x : Bool). if n == w then true else x) (o1 n)),
          b2 ∙ b1,
          acquire-other 2 0 w (acquire 1 r s) refl ∙ acquire-other 1 0 r s refl,
        )

    pub failed-Ready : Ready s (threw (destroy 1 (destroy 2 piped)))
    failed-Ready =
        let (h1, h2, o, b, k) = piped-HasPipe in
        let (o2, b2) = destroy-Drops 2 w piped h2 (ground (arith, o w)) in
        let t : Handles = destroy 2 piped in
        let (o1, b1) =
          destroy-Drops 1 r t (destroy-other 2 1 piped refl ∙ h1) (ground (arith, o r, o2 r)) in
        (
          ((λ n. ground (arith, o n, o2 n, o1 n)), b1 ∙ b2 ∙ b),
          destroy-other 1 0 t refl ∙ destroy-other 2 0 piped refl ∙ k,
        )

    pub parent-Ready : Ready s (opened 2 (destroy 1 (close 1 piped)))
    parent-Ready =
        let (h1, h2, o, b, k) = piped-HasPipe in
        let (o1, b1) = close-Drops 1 r piped h1 (ground (arith, o r)) in
        let (oe, be) = destroy-empty 1 (close 1 piped) (close_emptied 1 piped) in
        (
          w,
          destroy-other 1 2 (close 1 piped) refl ∙ close-other 1 2 piped refl ∙ h2,
          ((λ n. ground (arith, o n, o1 n, oe n)), be ∙ b1 ∙ b),
          destroy-other 1 0 (close 1 piped) refl ∙ close-other 1 0 piped refl ∙ k,
          refl,
        )

    pub child-Ready : Ready s (shell (dup_to_stdin y r (close 2 piped)))
    unfolding system_open
    child-Ready =
        let (h1, h2, o, b, k) = piped-HasPipe in
        let (o2, b2) = close-Drops 2 w piped h2 (ground (arith, o w)) in
        elim (Bool-cases (r == 0)) [
          | inl zero_end ↦ rw zero_end ((λ n. ground (arith, o n, o2 n)), b2 ∙ b)
          | inr other ↦
              let t : Handles = close 2 piped in
              let dup : Handles = system_open 0 t in
              let (o1, b1) =
                close-Drops 1 r dup (close-other 2 1 piped refl ∙ h1) (ground (arith, o r, o2 r)) in
              rw other ((λ n. ground (arith, o n, o2 n, o1 n)), b1 ∙ b2 ∙ b)
        ]
