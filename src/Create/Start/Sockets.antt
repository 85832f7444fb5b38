-- ===== src/Create/Start/Sockets.antt =====
-- The sockets of the start of `netevent create`: an attempt to connect, and listening behind it.
use netevent.Prelude.{
  ◌++◌, if◌then◌else◌, ℕ, suc, ◌<◌, ◌≡◌, refl, ap, ◌∙◌, Option, Bool, true, false, List, [], ◌∷◌,
  none, some, Bytes, length, arith, leb,
}
use netevent.Socket.{
  State, call, release, fine, closed_socket, close, forget_path, path_size, connect_unix,
  connect_call, remember, fill_path, covered, open_unix_stream, Call, closed, listened, bound,
  unlinked, connected, listen_unix, is_open,
}
use netevent.Socket.Path.{listen_unix-filled}
use netevent.Socket.Address.{fill_path-file, fill_path-abstract}
use netevent.Create.Start.{System}

-- The socket behind `openUnixStream`.
abbrev pub fresh : ℕ → State
fresh fd = record { socket = record closed_socket { fd = some fd }; calls = [] }

abbrev pub unused : State
unused = record { socket = closed_socket; calls = [] }

pub filled :
    (abstract : Bool) (path buffer : Bytes)
    → length buffer ≡ path_size
    → suc (length path) < path_size
    → (b : Bytes) × (fill_path abstract path buffer ≡ some b)
filled true path buffer l h = (_, fill_path-abstract path buffer l h)
filled false path buffer l h = (_, fill_path-file path buffer l (omega arith))

-- An attempt to connect, with an address that fits.
pub connect_unix-filled :
    (abstract works : Bool) (path buffer b : Bytes) (fd : ℕ)
    → fill_path abstract path buffer ≡ some b
    → suc (length path) < path_size
    → connect_unix abstract path buffer (some fd) works unused
      ≡ connect_call works fd (covered abstract path b) (remember abstract path (fresh fd))
unfolding connect_unix open_unix_stream close
connect_unix-filled abstract works path buffer b fd f h =
    let short : leb path_size (length path) ≡ false = ground arith in rw (short, f) refl

-- What an attempt to connect with a descriptor leaves behind, and what a socket that listens with
-- another one adds, latest first; and what the end of that socket adds.
abbrev pub listening_calls : Bool → Bytes → ℕ → ℕ → Bytes → List Call
listening_calls true path fd fd' b = listened fd' ∷ bound fd' b ∷ closed fd ∷ []
listening_calls false path fd fd' b = listened fd' ∷ bound fd' b ∷ unlinked path ∷ closed fd ∷ []

abbrev pub closing_calls : Bool → Bytes → ℕ → List Call
closing_calls true path fd' = closed fd' ∷ []
closing_calls false [] fd' = closed fd' ∷ []
closing_calls false (c ∷ path) fd' = unlinked (c ∷ path) ∷ closed fd' ∷ []

-- The socket was connected, and nothing else.
abbrev pub Connects : ℕ → State → Type 0
Connects fd s = (b : Bytes) × (s.calls ≡ connected fd b ∷ [])

-- The socket listens; or it did, and was closed again.
abbrev pub Listens : Bool → Bytes → ℕ → ℕ → Bool → State → Type 0
Listens abstract path fd fd' true s =
    (b : Bytes) × (s.calls
      ≡ closing_calls abstract path fd' ++ listening_calls abstract path fd fd' b)
    × (s.socket.fd ≡ none)
Listens abstract path fd fd' false s =
    (b : Bytes) × (s.calls ≡ listening_calls abstract path fd fd' b) × (s.socket.fd ≡ some fd')

pub listen_unix-again :
    (abstract : Bool) (path buffer b : Bytes) (fd fd' : ℕ)
    → fill_path abstract path buffer ≡ some b
    → suc (length path) < path_size
    → (t : State) × (listen_unix abstract path buffer
          (some fd')
          true
          true
          (remember abstract path (fresh fd))
        ≡ fine t)
      × (t.socket.fd ≡ some fd')
      × ((close t).calls
          ≡ closing_calls abstract path fd'
            ++ listening_calls abstract path fd fd' (covered abstract path b))
      × (t.calls ≡ listening_calls abstract path fd fd' (covered abstract path b))
unfolding close forget_path
listen_unix-again true path buffer b fd fd' f h = (
  _,
  listen_unix-filled true path buffer b fd' (fresh fd) (closed fd ∷ []) refl f (omega arith),
  refl,
  refl,
  refl,
)
listen_unix-again false [] buffer b fd fd' f h = (
  _,
  listen_unix-filled false [] buffer b fd' (fresh fd) (closed fd ∷ []) refl f (omega arith),
  refl,
  refl,
  refl,
)
listen_unix-again false (c ∷ path) buffer b fd fd' f h = (
  _,
  listen_unix-filled false (c ∷ path) buffer b fd' (remember false (c ∷ path) (fresh fd))
      (closed fd ∷ []) refl f (omega arith),
  refl,
  refl,
  refl,
)

pub remember-fd :
    (abstract : Bool) (path : Bytes) (s : State)
    → (remember abstract path s).socket.fd ≡ s.socket.fd
remember-fd true path s = refl
remember-fd false path s = refl

forget_path-fd :
    (path : Bytes) (unlink : Bool) (calls : List Call)
    → (forget_path (record { fd = none; path = path; unlink = unlink }) calls).socket.fd ≡ none
unfolding forget_path
forget_path-fd [] unlink calls = refl
forget_path-fd (c ∷ path) true calls = refl
forget_path-fd (c ∷ path) false calls = refl

pub close-fd : (s : State) (fd : ℕ) → s.socket.fd ≡ some fd → (close s).socket.fd ≡ none
unfolding close
close-fd s fd e = rw (e, close) (forget_path-fd s.socket.path s.socket.unlink (closed fd ∷ s.calls))

pub remember-calls :
    (abstract : Bool) (path : Bytes) (s : State) → (remember abstract path s).calls ≡ s.calls
remember-calls true path s = refl
remember-calls false path s = refl

pub remember-Connects :
    (abstract : Bool) (path b : Bytes) (fd : ℕ)
    → Connects fd (release (call (connected fd b) (remember abstract path (fresh fd)))).0
unfolding release
remember-Connects true path b fd = (b, refl)
remember-Connects false path b fd = (b, refl)

pub received_socket :
    (abstract : Bool) (path b : Bytes) (fd fd' : ℕ) (end_on_close : Bool) (t u : State)
    → t.socket.fd ≡ some fd'
    → (close t).calls ≡ closing_calls abstract path fd' ++ listening_calls abstract path fd fd' b
    → t.calls ≡ listening_calls abstract path fd fd' b
    → u ≡ (if end_on_close then close t else t)
    → Listens abstract path fd fd' end_on_close u
received_socket abstract path b fd fd' true t u h c d e =
    (b, ap (λ (s : State). s.calls) e ∙ c, ap (λ (s : State). s.socket.fd) e ∙ close-fd t fd' h)
received_socket abstract path b fd fd' false t u h c d e =
    (b, ap (λ (s : State). s.calls) e ∙ d, ap (λ (s : State). s.socket.fd) e ∙ h)

pub is_open-none : (t : State) → t.socket.fd ≡ none → is_open t ≡ false
unfolding is_open
is_open-none t e = rw e refl

pub listen_unix-works :
    (y : System) (abstract : Bool) (path : Bytes) (fd : ℕ) (s : State)
    → y.listen_fd ≡ some fd
    → y.binds ≡ true
    → y.listens ≡ true
    → listen_unix abstract path y.buffer y.listen_fd y.binds y.listens s
      ≡ listen_unix abstract path y.buffer (some fd) true true s
listen_unix-works y abstract path fd s f b l =
    ap (λ (o : Option ℕ). listen_unix abstract path y.buffer o y.binds y.listens s) f
    ∙ ap (λ (x : Bool). listen_unix abstract path y.buffer (some fd) x y.listens s) b
    ∙ ap (λ (x : Bool). listen_unix abstract path y.buffer (some fd) true x s) l
