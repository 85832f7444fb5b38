-- ===== src/Daemon/Outputs/Open/Drops.antt =====
-- What the functions of handles do to the open descriptors.
use netevent.Prelude.{
  ℕ, ◌≡◌, refl, inl, inr, true, false, Option, none, some, ◌==◌, if◌then◌else◌, arith, Bool-cases,
}
use netevent.Handle.{
  Handles, system_open, system_close, construct, acquire, close, close_fd, destroy, destroy_fd,
}

-- The same descriptors are open, and nothing was closed that was not open.
abbrev pub Same : Handles → Handles → Type 0
Same s t = ((n : ℕ) → t.opened n ≡ s.opened n) × (t.bad_closes ≡ s.bad_closes)

-- One more descriptor is open.
abbrev pub Adds : ℕ → Handles → Handles → Type 0
Adds fd s t =
    ((n : ℕ) → t.opened n ≡ (if n == fd then true else s.opened n)) × (t.bad_closes ≡ s.bad_closes)

pub acquire-Adds :
    (i fd : ℕ) (s : Handles) → ((acquire i fd s).fd i ≡ some fd) × Adds fd s (acquire i fd s)
unfolding acquire system_open construct
acquire-Adds i fd s = let self : i == i ≡ true = ground arith in (rw self refl, ((λ n. refl), refl))

-- The end of the one variable that holds a descriptor.
pub destroy-Same :
    (i fd : ℕ) (s t : Handles)
    → s.opened fd ≡ false
    → t.fd i ≡ some fd
    → Adds fd s t
    → Same s (destroy i t)
unfolding destroy system_close
destroy-Same i fd s t f h (o, b) =
    let here : t.opened fd ≡ true = ground (arith, o fd) in
    rw h (rw here ((λ n. ground (arith, o n)), b))

-- A handle that holds an open descriptor closes it.
abbrev pub Drops : ℕ → Handles → Handles → Type 0
Drops fd s t =
    ((n : ℕ) → t.opened n ≡ (if n == fd then false else s.opened n)) × (t.bad_closes ≡ s.bad_closes)

pub close-Drops :
    (i fd : ℕ) (s : Handles) → s.fd i ≡ some fd → s.opened fd ≡ true → Drops fd s (close i s)
unfolding close system_close
close-Drops i fd s h o = rw h (rw o ((λ n. refl), refl))

pub destroy-Drops :
    (i fd : ℕ) (s : Handles) → s.fd i ≡ some fd → s.opened fd ≡ true → Drops fd s (destroy i s)
unfolding destroy system_close
destroy-Drops i fd s h o = rw h (rw o ((λ n. refl), refl))

-- An empty handle ends without an effect.
pub destroy-empty : (i : ℕ) (s : Handles) → s.fd i ≡ none → Same s (destroy i s)
unfolding destroy
destroy-empty i s h = rw h ((λ n. refl), refl)

-- The other variables.
pub acquire-other : (i j fd : ℕ) (s : Handles) → j == i ≡ false → (acquire i fd s).fd j ≡ s.fd j
unfolding acquire system_open construct
acquire-other i j fd s e = rw e refl

-- A descriptor that is opened and closed again.
pub open-close-Same :
    (fd : ℕ) (s : Handles) → s.opened fd ≡ false → Same s (system_close fd (system_open fd s))
unfolding system_open system_close
open-close-Same fd s f =
    let self : fd == fd ≡ true = ground arith in rw self ((λ n. ground arith), refl)

pub open-fd : (fd j : ℕ) (s : Handles) → (system_open fd s).fd j ≡ s.fd j
unfolding system_open
open-fd fd j s = refl

pub system_close-fd : (fd j : ℕ) (s : Handles) → (system_close fd s).fd j ≡ s.fd j
unfolding system_close
system_close-fd fd j s = elim (Bool-cases (s.opened fd)) [ inl o ↦ rw o refl | inr o ↦ rw o refl ]

destroy_fd-fd : (o : Option ℕ) (j : ℕ) (s : Handles) → (destroy_fd o s).fd j ≡ s.fd j
destroy_fd-fd none j s = refl
destroy_fd-fd (some fd) j s = system_close-fd fd j s

pub destroy-other : (i j : ℕ) (s : Handles) → j == i ≡ false → (destroy i s).fd j ≡ s.fd j
unfolding destroy
destroy-other i j s e = rw (e, destroy) (destroy_fd-fd (s.fd i) j s)

close_fd-other :
    (i j : ℕ) (o : Option ℕ) (s : Handles) → j == i ≡ false → (close_fd i o s).fd j ≡ s.fd j
close_fd-other i j none s e = refl
close_fd-other i j (some fd) s e = rw e (system_close-fd fd j s)

pub close-other : (i j : ℕ) (s : Handles) → j == i ≡ false → (close i s).fd j ≡ s.fd j
unfolding close
close-other i j s e = close_fd-other i j (s.fd i) s e

close_fd_emptied : (i : ℕ) (o : Option ℕ) (s : Handles) → s.fd i ≡ o → (close_fd i o s).fd i ≡ none
close_fd_emptied i none s h = h
close_fd_emptied i (some fd) s h = let self : i == i ≡ true = ground arith in rw self refl

pub close_emptied : (i : ℕ) (s : Handles) → (close i s).fd i ≡ none
unfolding close
close_emptied i s = close_fd_emptied i (s.fd i) s refl
