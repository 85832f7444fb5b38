-- ===== src/Daemon/Outputs/Open/Sockets.antt =====
-- What a socket that connects does to the open descriptors.
use netevent.Prelude.{
  ℕ, ◌≡◌, refl, ap, ◌∙◌, inl, inr, Bool, true, false, List, [], ◌∷◌, Option, none, some, Bytes, leb,
  length, Bool-cases,
}
use netevent.Handle.{Handles, system_close}
use netevent.Socket.{Call, closed}
use netevent.Socket
use netevent.Daemon.Outputs.Open.{closes}

-- Calls that close nothing.
abbrev pub Quiet : List Call → Type 0
Quiet calls = (s : Handles) → closes calls s ≡ s

forget_path-closes :
    (path : Bytes) (unlink : Bool) (calls : List Call) (s : Handles)
    → closes (Socket.forget_path (record { fd = none; path = path; unlink = unlink }) calls).calls s
      ≡ closes calls s
unfolding Socket.forget_path closes
forget_path-closes [] unlink calls s = refl
forget_path-closes (c ∷ path) true calls s = refl
forget_path-closes (c ∷ path) false calls s = refl

-- The end of a socket closes the descriptor that it has.
pub close-closes :
    (fd : ℕ) (t : Socket.State) (s : Handles)
    → t.socket.fd ≡ some fd
    → Quiet t.calls
    → closes (Socket.close t).calls s ≡ system_close fd s
unfolding Socket.close closes
close-closes fd t s h q =
    ap (λ (o : Option ℕ). closes (Socket.close_fd o t).calls s) h
    ∙ forget_path-closes t.socket.path t.socket.unlink (closed fd ∷ t.calls) s
    ∙ ap (system_close fd) (q s)

-- A socket holds the descriptor that `::socket` returned, if it did, and has closed none.
abbrev pub Holds : Option ℕ → Socket.Result → Type 0
Holds answer (Socket.fine t) =
    (fd : ℕ) × (answer ≡ some fd) × (t.socket.fd ≡ some fd) × Quiet t.calls
Holds answer (Socket.thrown e t) = (t.socket.fd ≡ answer) × Quiet t.calls
Holds answer Socket.out_of_bounds = Unit {0}

abbrev fresh : ℕ → Socket.State
fresh fd = record { socket = record Socket.closed_socket { fd = some fd }; calls = [] }

connect_call-Holds :
    (works abstract : Bool) (fd : ℕ) (path name : Bytes)
    → Holds (some fd) (Socket.connect_call works fd name (Socket.remember abstract path (fresh fd)))
unfolding closes
connect_call-Holds true true fd path name = (fd, refl, refl, (λ s. refl))
connect_call-Holds true false fd path name = (fd, refl, refl, (λ s. refl))
connect_call-Holds false true fd path name = (refl, (λ s. refl))
connect_call-Holds false false fd path name = (refl, (λ s. refl))

with_address-Holds :
    (abstract works : Bool) (fd : ℕ) (path : Bytes) (filled : Option Bytes)
    → Holds (some fd) (
        Socket.with_address filled (λ b.
          Socket.connect_call works fd
            (Socket.covered abstract path b)
            (Socket.remember abstract path (fresh fd))))
with_address-Holds abstract works fd path none = tt
with_address-Holds abstract works fd path (some b) =
    connect_call-Holds works abstract fd path (Socket.covered abstract path b)

pub connect_unix-Holds :
    (abstract : Bool) (path buffer : Bytes) (answer : Option ℕ) (works : Bool)
    → Holds answer (
        Socket.connect_unix abstract path buffer answer works
          (record { socket = Socket.closed_socket; calls = [] }))
unfolding Socket.connect_unix Socket.open_unix_stream Socket.close closes
connect_unix-Holds abstract path buffer none works = (refl, (λ s. refl))
connect_unix-Holds abstract path buffer (some fd) works =
    elim (Bool-cases (leb Socket.path_size (length path))) [
      | inl long ↦ rw long (refl, (λ s. refl))
      | inr short ↦
          rw short
            (with_address-Holds abstract works fd path (Socket.fill_path abstract path buffer))
    ]
