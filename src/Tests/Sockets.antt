-- ===== src/Tests/Sockets.antt =====
-- Examples for handles and sockets.
use mathlib.Core.Option.{none-ne-some}
use netevent.Prelude.{
  suc, ◌<◌, ◌≡◌, ◌≢◌, refl, true, false, List, [], ◌∷◌, ◌++◌, none, some, Bytes, codes, arith,
  length, replicate,
}
use netevent.Handle.{
  Handles, Operation, acquired, passed, moved, assigned, destroyed, perform_all, perform, acquire,
  system_open, construct, construct_moved,
}
use netevent.Handle.Owners.{Owned, AllFresh, perform_all-Owned}
use netevent.Socket.{
  path_size, State, fine, thrown, bind_failed, fill_path, covered, bind_unix, close, closed, bound,
  unlinked,
}
use netevent.Socket.Address.{behind, fill_path_bounds, covered-fill_path}
use netevent.Socket.Path.{start, bind_unix-close}

abbrev no_handles : Handles
no_handles = record { fd = λ i. none; opened = λ fd. false; bad_closes = 0 }

no_handles-Owned : Owned no_handles
no_handles-Owned = record {
  are_open = λ i fd h. absurd (none-ne-some fd h);
  one_owner = λ i j fd h k. absurd (none-ne-some fd h);
  no_bad_closes = refl;
}

abbrev some_operations : List Operation
some_operations =
    acquired 0 3
    ∷ moved 1 0
    ∷ acquired 0 4
    ∷ assigned 1 0
    ∷ passed 2 1
    ∷ destroyed 2
    ∷ destroyed 0
    ∷ destroyed 1
    ∷ []

some_operations-AllFresh : AllFresh some_operations no_handles
unfolding perform acquire system_open construct construct_moved
some_operations-AllFresh = (refl, (tt, (refl, (tt, (tt, (tt, (tt, (tt, tt))))))))

perform_all-Owned_example : Owned (perform_all some_operations no_handles)
perform_all-Owned_example =
    perform_all-Owned some_operations no_handles some_operations-AllFresh no_handles-Owned

abbrev old_bytes : Bytes
old_bytes = replicate 108 1

abbrev longest : Bytes
longest = replicate 107 97

fill_path_bounds_example :
    (fill_path false longest old_bytes ≢ none)
    × (suc (length longest) < path_size → fill_path true longest old_bytes ≢ none)
    × (suc (length longest) ≡ path_size → fill_path true longest old_bytes ≡ none)
fill_path_bounds_example = fill_path_bounds longest old_bytes refl (omega arith)

covered-fill_path_example :
    (name : Bytes) × (file : Bytes) × (fill_path true (codes "net") old_bytes ≡ some name)
    × (fill_path false (codes "net") old_bytes ≡ some file)
    × (covered true (codes "net") name ≡ 0 ∷ codes "net")
    × (covered false (codes "net") file
        ≡ codes "net" ++ (0 ∷ behind (length (codes "net")) old_bytes))
covered-fill_path_example = covered-fill_path (codes "net") old_bytes refl (omega arith)

bind_unix-close_example :
    let path : Bytes = b'n' ∷ codes "et" in
    let file : Bytes = path ++ (0 ∷ behind (length path) old_bytes) in
    ((t : State) × (bind_unix false path old_bytes (some 3) true (start []) ≡ fine t)
      × (close t
          ≡ start
              (unlinked path ∷ closed 3 ∷ bound 3 (covered false path file) ∷ unlinked path ∷ [])))
    × ((t : State) × (bind_unix false path old_bytes (some 3) false (start [])
          ≡ thrown bind_failed t)
        × (close t ≡ start (closed 3 ∷ unlinked path ∷ [])))
    × ((t : State) × (name : Bytes) × (bind_unix true path old_bytes (some 3) true (start [])
          ≡ fine t)
        × (close t ≡ start (closed 3 ∷ bound 3 name ∷ [])))
    × ((t : State) × (bind_unix true path old_bytes (some 3) false (start [])
          ≡ thrown bind_failed t)
        × (close t ≡ start (closed 3 ∷ [])))
bind_unix-close_example = bind_unix-close b'n' 3 (codes "et") old_bytes [] refl (omega arith)
