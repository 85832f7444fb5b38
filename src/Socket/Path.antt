-- ===== src/Socket/Path.antt =====
-- The file of a socket.
use netevent.Prelude.{
  ℕ, suc, ◌<◌, ◌≡◌, refl, Bool, true, false, List, ◌∷◌, ◌++◌, none, some, Bytes, length, leb, arith,
}
use netevent.Socket.{
  fine, call, listened, listen, listen_unix, path_size, Call, State, thrown, bind_failed,
  closed_socket, close, forget_path, bind_unix, open_unix_stream, bind_call, fill_path, covered,
  closed, bound, unlinked,
}
use netevent.Socket.Address.{behind, fill_path-file, fill_path-abstract}

abbrev pub start : List Call → State
start calls = record { socket = closed_socket; calls = calls }

-- A socket that is opened anew and has a path of a good length gets to its `::bind`.
bind_unix-filled :
    (abstract works : Bool) (path buffer filled : Bytes) (fd : ℕ) (s : State)
    → s.socket.fd ≡ none
    → length path < path_size
    → fill_path abstract path buffer ≡ some filled
    → bind_unix abstract path buffer (some fd) works s
      ≡ bind_call abstract path works fd
          (covered abstract path filled)
          (record s { socket = record s.socket { fd = some fd } })
unfolding bind_unix open_unix_stream close
bind_unix-filled abstract works path buffer filled fd s e h f =
    let short : leb path_size (length path) ≡ false = ground arith in rw (e, short, f) refl

-- The life of a socket that was not used before: it is bound and then closed. With a path that is
-- not empty, what is at the path is removed first; where `::bind` works, the socket is bound to the
-- path and its file is removed behind the end of the descriptor; where it fails, an exception is
-- thrown and the end of the socket removes nothing. With an abstract name no file is ever
-- removed, whether `::bind` works or fails. In these four cases the closed socket is as it was at
-- first.
pub bind_unix-close :
    (c fd : ℕ) (cs buffer : Bytes) (calls : List Call)
    → length buffer ≡ path_size
    → suc (length (c ∷ cs)) < path_size
    → let path : Bytes = c ∷ cs in
      let file : Bytes = path ++ (0 ∷ behind (length path) buffer) in
      ((t : State) × (bind_unix false path buffer (some fd) true (start calls) ≡ fine t)
        × (close t
            ≡ start (
                unlinked path
                ∷ closed fd
                ∷ bound fd (covered false path file)
                ∷ unlinked path
                ∷ calls)))
      × ((t : State) × (bind_unix false path buffer (some fd) false (start calls)
            ≡ thrown bind_failed t)
          × (close t ≡ start (closed fd ∷ unlinked path ∷ calls)))
      × ((t : State) × (name : Bytes) × (bind_unix true path buffer (some fd) true (start calls)
            ≡ fine t)
          × (close t ≡ start (closed fd ∷ bound fd name ∷ calls)))
      × ((t : State) × (bind_unix true path buffer (some fd) false (start calls)
            ≡ thrown bind_failed t)
          × (close t ≡ start (closed fd ∷ calls)))
unfolding close forget_path
bind_unix-close c fd cs buffer calls l h =
    let path : Bytes = c ∷ cs in
    let file = fill_path-file path buffer l (omega arith) in
    let name = fill_path-abstract path buffer l h in
    (
      (_, bind_unix-filled false true path buffer _ fd (start calls) refl (omega arith) file, refl),
      (
        _,
        bind_unix-filled false false path buffer _ fd (start calls) refl (omega arith) file,
        refl,
      ),
      (
        _,
        _,
        bind_unix-filled true true path buffer _ fd (start calls) refl (omega arith) name,
        refl,
      ),
      (_, bind_unix-filled true false path buffer _ fd (start calls) refl (omega arith) name, refl),
    )

-- The state of a socket that is bound.
abbrev pub bound_state : Bool → Bytes → ℕ → Bytes → State → State
bound_state true path fd name s = call (bound fd name) s
bound_state false path fd name s = record {
  socket = record s.socket { path = path; unlink = true };
  calls = bound fd name ∷ unlinked path ∷ s.calls;
}

-- A socket that `close` leaves unused listens.
pub listen_unix-filled :
    (abstract : Bool) (path buffer b : Bytes) (fd : ℕ) (s : State) (calls : List Call)
    → close s ≡ record { socket = closed_socket; calls = calls }
    → fill_path abstract path buffer ≡ some b
    → length path < path_size
    → listen_unix abstract path buffer (some fd) true true s
      ≡ fine (
          call (listened fd) (
            bound_state abstract path fd
              (covered abstract path b)
              (record { socket = record closed_socket { fd = some fd }; calls = calls })))
unfolding listen_unix bind_unix open_unix_stream listen
listen_unix-filled true path buffer b fd s calls c f h =
    let short : leb path_size (length path) ≡ false = ground arith in
    rw (c, listen_unix, bind_unix, open_unix_stream) (rw (short, f) refl)
listen_unix-filled false path buffer b fd s calls c f h =
    let short : leb path_size (length path) ≡ false = ground arith in
    rw (c, listen_unix, bind_unix, open_unix_stream) (rw (short, f) refl)
