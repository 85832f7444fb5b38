-- ===== src/Create/Start/Connect.antt =====
-- What `--connect` leads to.
use netevent.Prelude.{
  if◌then◌else◌, ℕ, suc, ◌<◌, ◌≡◌, ◌≢◌, refl, ap, ◌∙◌, Option, Bool, true, false, not, [], some,
  Bytes, length, arith, ◌⊎◌, inl, inr,
}
use netevent.Socket.{
  State, thrown, connect_failed, fine, close, path_size, connect_call, remember, fill_path, covered,
  listen_unix, release, is_open,
}
use netevent.Options.Create.{CreateOptions}
use netevent.Create.Start.{
  System, Start, daemonized, received, listening, accept_phase, goes_on, start_from, forked,
  pipe_phase, connected, ends, listen_phase, parent, child, econnrefused, socket_error, copies,
  receives, refuses, is_abstract, address_name, tried, connect_phase, start_create,
}
use netevent.Create.Start.Sockets.{
  fresh, unused, filled, connect_unix-filled, listen_unix-again, remember-fd, remember-calls,
  remember-Connects, received_socket, Connects, Listens, close-fd, is_open-none, listen_unix-works,
}

pub daemonized_works :
    (y : System) (daemonize : Bool) (rest : Start) (s : State)
    → y.daemonizes ≡ true
    → daemonized y daemonize rest s ≡ rest
daemonized_works y true rest s e = rw e refl
daemonized_works y false rest s e = refl

received-listening :
    (y : System) (end_on_close : Bool) (infd fd : ℕ) (s : State)
    → s.socket.fd ≡ some fd
    → (t : State) × (received y end_on_close infd s ≡ receives infd (not end_on_close) t)
      × (t ≡ (if end_on_close then close s else s))
unfolding received is_open
received-listening y true infd fd s e = (
  close s,
  ap (λ (b : Bool). receives infd b (close s)) (is_open-none (close s) (close-fd s fd e)),
  refl,
)
received-listening y false infd fd s e = (s, rw e refl, refl)

-- The four ends of the attempt.
tried_connected :
    (y : System) (daemonize : Bool) (fd : ℕ) (s : State)
    → s.socket.fd ≡ some fd
    → tried y daemonize (fine s) ≡ ends (copies fd (release s).0)
unfolding tried connected release
tried_connected y daemonize fd s e = rw e refl

module _ (y : System) (s : State) (r w : ℕ) (pipe : y.pipe ≡ some (r, w)) where
  tried_parent :
      y.errno ≡ econnrefused
      → y.fork ≡ parent
      → tried y true (thrown connect_failed s) ≡ ends (copies w s)
  unfolding tried pipe_phase forked
  tried_parent e f = rw (e, pipe, f) refl

  tried_child :
      y.errno ≡ econnrefused
      → y.fork ≡ child
      → tried y true (thrown connect_failed s) ≡ goes_on (some r) s
  unfolding tried pipe_phase forked
  tried_child e f = rw (e, pipe, f) refl

tried_failed :
    (y : System) (daemonize : Bool) (s : State)
    → (y.errno ≢ econnrefused) ⊎ (daemonize ≡ false)
    → tried y daemonize (thrown connect_failed s) ≡ ends (refuses (socket_error connect_failed) s)
unfolding tried
tried_failed y false s h = refl
tried_failed y true s (inl h) = ground arith
tried_failed y true s (inr h) = cc

module _ (y : System) (o : CreateOptions) (name : Bytes) (fd : ℕ) (listens : o.listen ≡ some name)
    (connects : o.connect ≡ true) (buffer_full : length y.buffer ≡ path_size)
    (short : suc (length (address_name name)) < path_size) (opens : y.connect_fd ≡ some fd) where
  attempt :
      (b : Bytes) × (connect_phase y o name unused
        ≡ tried y o.daemonize (
            connect_call y.connects fd
              (covered (is_abstract name) (address_name name) b)
              (remember (is_abstract name) (address_name name) (fresh fd))))
      × (fill_path (is_abstract name) (address_name name) y.buffer ≡ some b)
  unfolding connect_phase
  attempt =
      let (b, f) = filled (is_abstract name) (address_name name) y.buffer buffer_full short in
      (
        b,
        rw (connects, opens)
            (rw
              (connect_unix-filled (is_abstract name) y.connects (address_name name) y.buffer b fd f
                short)
              refl),
        f,
      )

  -- The child listens and receives what the parent copies.
  listen_phase-child :
      (infd fd' : ℕ) (s t : State)
      → listen_unix (is_abstract name) (address_name name) y.buffer y.listen_fd y.binds y.listens s
        ≡ fine t
      → t.socket.fd ≡ some fd'
      → y.daemonizes ≡ true
      → (u : State) × (listen_phase y o name (goes_on (some infd) s)
          ≡ receives infd (not o.end_on_close) u)
        × (u ≡ (if o.end_on_close then close t else t))
  unfolding listen_phase listening accept_phase
  listen_phase-child infd fd' s t l e d =
      let (u, q, same) = received-listening y o.end_on_close infd fd' t e in
      (
        u,
        ap (listening y o (some infd)) l
            ∙ daemonized_works y o.daemonize (received y o.end_on_close infd t) t d
            ∙ q,
        same,
      )

  -- With `--connect`, `netevent create` copies its input to the instance that takes the connection:
  -- its socket was connected and nothing else, and it neither forks nor listens. If the connection is refused, the process with `--daemonize` forks:
  -- the parent copies its input into the pipe without a socket, and the child listens, in place of the
  -- socket that was refused, and receives its packets from the pipe and
  -- then, unless it is to end with the first client, from the clients of its socket. Any other failure
  -- of the connection, and one without `--daemonize`, is an exception. The name of the socket fits its
  -- address, and what the system is asked for otherwise works.
  pub start_create-connects :
      (r w fd' : ℕ)
      → y.pipe ≡ some (r, w)
      → y.listen_fd ≡ some fd'
      → (y.binds ≡ true) × (y.listens ≡ true) × (y.daemonizes ≡ true)
      → (y.connects ≡ true → (s : State) × (start_create y o ≡ copies fd s) × Connects fd s)
        × (y.connects ≡ false
            → y.errno ≡ econnrefused
            → o.daemonize ≡ true
            → y.fork ≡ parent
            → (s : State) × (start_create y o ≡ copies w s) × (s.calls ≡ []))
        × (y.connects ≡ false
            → y.errno ≡ econnrefused
            → o.daemonize ≡ true
            → y.fork ≡ child
            → (s : State) × (start_create y o ≡ receives r (not o.end_on_close) s)
              × Listens (is_abstract name) (address_name name) fd fd' o.end_on_close s)
        × (y.connects ≡ false
            → (y.errno ≢ econnrefused) ⊎ (o.daemonize ≡ false)
            → (s : State) × (start_create y o ≡ refuses (socket_error connect_failed) s)
              × (s.calls ≡ []))
  unfolding start_create listen_phase release
  start_create-connects r w fd' pipe listen_fd (binds, listens', daemonizes) =
      let (b, tries, f) = attempt in
      let s : State = remember (is_abstract name) (address_name name) (fresh fd) in
      let has_fd : s.socket.fd ≡ some fd =
        remember-fd (is_abstract name) (address_name name) (fresh fd) in
      let no_calls : s.calls ≡ [] =
        remember-calls (is_abstract name) (address_name name) (fresh fd) in
      let call_of = λ (works : Bool).
        connect_call works fd (covered (is_abstract name) (address_name name) b) s in
      let began : (works : Bool)
          → y.connects ≡ works
          → start_create y o ≡ listen_phase y o name (tried y o.daemonize (call_of works)) =
        λ works e.
          ap (λ (l : Option Bytes). start_from y o l) listens
          ∙ ap (listen_phase y o name)
              (tries ∙ ap (λ (c : Bool). tried y o.daemonize (call_of c)) e) in
      (
        (λ on. (
          _,
          began true on ∙ ap (listen_phase y o name) (tried_connected y o.daemonize fd _ has_fd),
          remember-Connects (is_abstract name) (address_name name)
              (covered (is_abstract name) (address_name name) b) fd,
        )),
        (λ off e dae p. (
          _,
          began false off
              ∙ ap (listen_phase y o name) (
                  ap (λ (x : Bool). tried y x (call_of false)) dae ∙ tried_parent y s r w pipe e p),
          no_calls,
        )),
        (λ off e dae c.
            let (t, l, has, shut, calls) =
              listen_unix-again (is_abstract name) (address_name name) y.buffer b fd fd' f short in
            let (u, q, same) =
              listen_phase-child r fd' s t
                (listen_unix-works y (is_abstract name) (address_name name) fd' s listen_fd binds
                    listens'
                  ∙ l)
                has daemonizes in
            (
              u,
              began false off
                  ∙ ap (listen_phase y o name) (
                      ap (λ (x : Bool). tried y x (call_of false)) dae
                      ∙ tried_child y s r w pipe e c)
                  ∙ q,
              received_socket (is_abstract name) (address_name name) _ fd fd' o.end_on_close t u has
                  shut calls same,
            )),
        (λ off h. (
          _,
          began false off ∙ ap (listen_phase y o name) (tried_failed y o.daemonize s h),
          no_calls,
        )),
      )
