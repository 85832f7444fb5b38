-- ===== src/Socket.antt =====
-- `Socket` (socket.h, socket.cpp): Unix sockets, bound and connected by a path or by an abstract
-- name. The answers of the system calls are arguments, and the calls that change something are
-- recorded, latest first.
pub mod Address
pub mod Path
use netevent.Prelude.{
  ℕ, ◌+◌, Bool, true, false, not, List, [], ◌∷◌, ◌++◌, Option, none, some, Bytes, length, take,
  drop, leb, ltb, if◌then◌else◌,
}

-- `sizeof(addr.sun_path)`, and the bytes of `sun_family` in front of it.
abbrev pub path_size : ℕ
path_size = 108

abbrev pub family_size : ℕ
family_size = 2

pub record Socket : Type 0 where
  pub fd : Option ℕ
  pub path : Bytes
  pub unlink : Bool

pub data Call : Type 0 where
  closed listened : ℕ → Call
  unlinked : Bytes → Call
  bound connected : ℕ → Bytes → Call

pub record State : Type 0 where
  pub socket : Socket
  pub calls : List Call

pub data SocketError : Type 0 where
  open_failed path_too_long bind_failed listen_failed connect_failed accept_failed shutdown_failed :
      SocketError

-- A function returns or throws, or writes behind the address.
pub data Result : Type 0 where
  fine : State → Result
  thrown : SocketError → State → Result
  out_of_bounds : Result

-- `Socket::Socket()`
abbrev pub closed_socket : Socket
closed_socket = record { fd = none; path = []; unlink = false }

abbrev pub call : Call → State → State
call c s = record s { calls = c ∷ s.calls }

-- The part of `close` behind `::close`.
unfoldable pub forget_path : Socket → List Call → State
forget_path k calls = elim k.path [
  | [] ↦ record { socket = k; calls = calls }
  | c ∷ cs ↦
      if k.unlink
      then record {
        socket = record k { unlink = false; path = [] };
        calls = unlinked k.path ∷ calls;
      }
      else record { socket = record k { path = [] }; calls = calls }
]

abbrev pub close_fd : Option ℕ → State → State
close_fd none s = s
close_fd (some fd) s = forget_path (record s.socket { fd = none }) (closed fd ∷ s.calls)

-- `Socket::close`, and `Socket::~Socket`, which calls it.
unfoldable pub close : State → State
unfolding forget_path
close s = close_fd s.socket.fd s

abbrev pub opened : Option ℕ → State → Result
opened none s = thrown open_failed (record s { socket = record s.socket { fd = none } })
opened (some fd) s = fine (record s { socket = record s.socket { fd = some fd } })

-- `Socket::openUnixStream`, with the descriptor that `::socket` returns.
unfoldable pub open_unix_stream : Option ℕ → State → Result
unfolding close
open_unix_stream answer s = opened answer (close s)

-- A write of bytes at an index of a buffer; `none` is one that does not fit.
abbrev pub put : ℕ → Bytes → Bytes → Option Bytes
put i b buffer =
    if leb (i + length b) (length buffer)
    then some (take i buffer ++ (b ++ drop (i + length b) buffer))
    else none

abbrev pub put_then : ℕ → Bytes → Option Bytes → Option Bytes
put_then i b none = none
put_then i b (some buffer) = put i b buffer

-- The writes to `sun_path`, which is not initialized: `sun_path[0] = 0` for an abstract name, the
-- `memcpy` and the terminator.
unfoldable pub fill_path : Bool → Bytes → Bytes → Option Bytes
fill_path true path buffer =
    put_then (1 + length path) (0 ∷ []) (put_then 1 path (put 0 (0 ∷ []) buffer))
fill_path false path buffer = put_then (length path) (0 ∷ []) (put 0 path buffer)

-- The length that `bind` and `connect` get, and the part of `sun_path` that it covers.
unfoldable pub address_length : Bool → Bytes → ℕ
address_length true path = family_size + (1 + length path)
address_length false path = family_size + path_size

unfoldable pub covered : Bool → Bytes → Bytes → Bytes
covered true path filled = take (1 + length path) filled
covered false path filled = take path_size filled

-- `::bind` behind the `unlink` of a path.
abbrev pub bind_call : Bool → Bytes → Bool → ℕ → Bytes → State → Result
bind_call true path true fd name s = fine (call (bound fd name) s)
bind_call true path false fd name s = thrown bind_failed s
bind_call false path true fd name s = fine (record {
  socket = record s.socket { path = path; unlink = true };
  calls = bound fd name ∷ unlinked path ∷ s.calls;
})
bind_call false path false fd name s = thrown bind_failed (call (unlinked path) s)

-- A path that is set before `::connect`.
abbrev pub remember : Bool → Bytes → State → State
remember true path s = s
remember false path s = record s { socket = record s.socket { path = path } }

abbrev pub connect_call : Bool → ℕ → Bytes → State → Result
connect_call true fd name s = fine (call (connected fd name) s)
connect_call false fd name s = thrown connect_failed s

-- The address, for what comes behind it.
abbrev pub with_address : Option Bytes → (Bytes → Result) → Result
with_address none k = out_of_bounds
with_address (some filled) k = k filled

abbrev pub with_socket : Bytes → Result → (ℕ → State → Result) → Result
with_socket path out_of_bounds k = out_of_bounds
with_socket path (thrown e s) k = thrown e s
with_socket path (fine s) k =
    if leb path_size (length path)
    then thrown path_too_long s
    else elim s.socket.fd [ none ↦ thrown open_failed s | some fd ↦ k fd s ]

-- `Socket::bindUnix`; `buffer` is what stands in `sun_path` before.
unfoldable pub bind_unix : Bool → Bytes → Bytes → Option ℕ → Bool → State → Result
unfolding open_unix_stream fill_path covered
bind_unix abstract path buffer answer works s =
    with_socket path (open_unix_stream answer s) (λ fd t.
      with_address (fill_path abstract path buffer)
        (λ filled. bind_call abstract path works fd (covered abstract path filled) t))

-- `Socket::connectUnix`
unfoldable pub connect_unix : Bool → Bytes → Bytes → Option ℕ → Bool → State → Result
unfolding open_unix_stream fill_path covered
connect_unix abstract path buffer answer works s =
    with_socket path (open_unix_stream answer s) (λ fd t.
      with_address (fill_path abstract path buffer)
        (λ filled. connect_call works fd (covered abstract path filled) (remember abstract path t)))

-- `Socket::listen`, of a socket that is open.
unfoldable pub listen : ℕ → Bool → State → Result
listen fd works s = if works then fine (call (listened fd) s) else thrown listen_failed s

-- `Socket::release` and `Socket::intoIOHandle`: the path stays.
unfoldable pub release : State → State × Option ℕ
release s = (record s { socket = record s.socket { fd = none } }, s.socket.fd)

-- `Socket::operator bool`
unfoldable pub is_open : State → Bool
is_open s = elim s.socket.fd [ none ↦ false | some fd ↦ true ]

-- `Socket::listenUnix`
unfoldable pub listen_unix : Bool → Bytes → Bytes → Option ℕ → Bool → Bool → State → Result
unfolding bind_unix listen
listen_unix abstract path buffer answer binds listens s =
    elim (bind_unix abstract path buffer answer binds s) [
      | out_of_bounds ↦ out_of_bounds
      | thrown e t ↦ thrown e t
      | fine t ↦ elim t.socket.fd [ none ↦ thrown listen_failed t | some fd ↦ listen fd listens t ]
    ]

-- `Socket::accept`, with the descriptor that `::accept4` returns.
unfoldable pub accept : Option ℕ → State → Result × Option ℕ
accept none s = (thrown accept_failed s, none)
accept (some fd) s = (fine s, some fd)

-- `Socket::shutdown`
unfoldable pub shutdown : Bool → State → Result
shutdown works s = if works then fine s else thrown shutdown_failed s
