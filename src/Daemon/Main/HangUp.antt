-- ===== src/Daemon/Main/HangUp.antt =====
-- The end of the main loop.
use netevent.Prelude.{
  ℕ, ◌≡◌, refl, ◌∙◌, ◌⊎◌, inl, inr, Bool, true, false, List, [], ◌∷◌, some, if◌then◌else◌, ltb,
  Bool-cases,
}
use netevent.Daemon.Map.{find}
use netevent.Daemon.State.{
  Daemon, Env, M, Outcome, done, Callback, server, initial, some_or, bind-done,
}
use netevent.Daemon.State as State
use netevent.Daemon.Events.{Run}
use netevent.Daemon.Loop.{Polled, polled, Revents, prepare, dispatch, call_back, on_lost, serve}

not_taken :
    {A : Type 0} (b : Bool) (m n : M A) (d : Daemon) → b ≡ false → (if b then m else n) d ≡ n d
not_taken true m n d e = cc
not_taken false m n d e = refl

module _ (env : Env) (run : Run) where
  call_back-hangs_up :
      (fd : ℕ) (r : Revents) (e : Daemon)
      → e.quit ≡ false
      → (r.err ≡ true) ⊎ (r.hup ≡ true)
      → call_back env run fd server r e ≡ done tt (record e { quit = true })
  unfolding call_back on_lost
  call_back-hangs_up fd r e q h = elim (Bool-cases r.err) [
    | inl err ↦ rw err refl
    | inr fine ↦ elim h [ inl err ↦ cc | inr hup ↦ rw (fine, hup) (rw q refl) ]
  ]

  dispatch-hangs_up :
      (revents : ℕ → Revents) (fd : ℕ) (fds : List ℕ) (e : Daemon)
      → e.quit ≡ false
      → find ltb fd e.callbacks ≡ some server
      → ((revents fd).err ≡ true) ⊎ ((revents fd).hup ≡ true)
      → dispatch env run revents (fd ∷ fds) e ≡ done tt (record e { quit = true })
  unfolding dispatch
  dispatch-hangs_up revents fd fds e q c h =
      rw (c, some_or)
        (bind-done (call_back env run fd server (revents fd)) _ e (record e { quit = true }) tt
          (call_back-hangs_up fd (revents fd) e q h))

  serve_left :
      (answers : List Polled) (pfds : List ℕ) (d : Daemon)
      → d.quit ≡ true
      → serve env run answers pfds d ≡ done pfds d
  unfolding serve
  serve_left [] pfds d q = refl
  serve_left (answer ∷ answers) pfds d q = rw q refl

  -- The main loop ends when `poll` finds that the socket of the daemon failed or hung up, whatever
  -- would come after: nothing else is read or called in that round. The socket is the first that is
  -- polled and has its callbacks, and what stands in front of `poll` returned and did not quit.
  pub serve-hangs_up :
      (revents : ℕ → Revents) (answers : List Polled) (fd : ℕ) (fds kept : List ℕ) (d e : Daemon)
      → d.quit ≡ false
      → prepare env run (fd ∷ fds) d ≡ done (fd ∷ kept) e
      → e.quit ≡ false
      → find ltb fd e.callbacks ≡ some server
      → ((revents fd).err ≡ true) ⊎ ((revents fd).hup ≡ true)
      → serve env run (polled revents ∷ answers) (fd ∷ fds) d
        ≡ done (fd ∷ kept) (record e { quit = true })
  unfolding serve
  serve-hangs_up revents answers fd fds kept d e q p r c h =
      not_taken d.quit (State.pure (fd ∷ fds)) _ d q
      ∙ bind-done (prepare env run (fd ∷ fds)) _ d e (fd ∷ kept) p
      ∙ not_taken e.quit (State.pure (fd ∷ kept)) _ e r
      ∙ bind-done (dispatch env run revents (fd ∷ kept)) _ e (record e { quit = true }) tt
          (dispatch-hangs_up revents fd kept e r c h)
      ∙ serve_left answers (fd ∷ kept) (record e { quit = true }) refl
