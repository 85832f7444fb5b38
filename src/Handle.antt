-- ===== src/Handle.antt =====
-- `IOHandle` (iohandle.h): the owners of descriptors. A handle is a variable, known by a number, that
-- holds a descriptor or -1, which is `none`. The descriptors that are open are a part of the state,
-- and so is the number of calls of `::close` for one that was not open.
pub mod Owners
use netevent.Prelude.{
  ℕ, suc, Bool, true, false, List, [], ◌∷◌, Option, none, some, ◌==◌, if◌then◌else◌,
}

pub record Handles : Type 0 where
  pub fd : ℕ → Option ℕ
  pub opened : ℕ → Bool
  pub bad_closes : ℕ

abbrev pub with_fd : ℕ → Option ℕ → Handles → Handles
with_fd i o s = record s { fd = λ j. if j == i then o else s.fd j }

-- `::close`
unfoldable pub system_close : ℕ → Handles → Handles
system_close fd s =
    if s.opened fd
    then record s { opened = λ k. if k == fd then false else s.opened k }
    else record s { bad_closes = suc s.bad_closes }

-- A descriptor that a system call returns.
unfoldable pub system_open : ℕ → Handles → Handles
system_open fd s = record s { opened = λ k. if k == fd then true else s.opened k }

-- `IOHandle::IOHandle(int)`
unfoldable pub construct : ℕ → Option ℕ → Handles → Handles
construct i o s = with_fd i o s

-- The same with a descriptor that a system call has just returned.
unfoldable pub acquire : ℕ → ℕ → Handles → Handles
unfolding system_open construct
acquire i fd s = construct i (some fd) (system_open fd s)

-- `IOHandle::IOHandle()`
unfoldable pub construct_default : ℕ → Handles → Handles
construct_default i s = with_fd i none s

-- `IOHandle::IOHandle(IOHandle&&)`
unfoldable pub construct_moved : ℕ → ℕ → Handles → Handles
construct_moved i j s = with_fd j none (with_fd i (s.fd j) s)

abbrev pub close_fd : ℕ → Option ℕ → Handles → Handles
close_fd i none s = s
close_fd i (some fd) s = with_fd i none (system_close fd s)

-- `IOHandle::close`
unfoldable pub close : ℕ → Handles → Handles
unfolding system_close
close i s = close_fd i (s.fd i) s

-- `IOHandle::operator=(IOHandle&&)`
unfoldable pub assign_moved : ℕ → ℕ → Handles → Handles
unfolding close
assign_moved i j s = let t = close i s in with_fd j none (with_fd i (t.fd j) t)

-- `IOHandle::release`: the handle forgets its descriptor, which stays open.
unfoldable pub release : ℕ → Handles → Handles × Option ℕ
release i s = (with_fd i none s, s.fd i)

-- `IOHandle::IOHandle(int)` with what `release` of another handle returns.
unfoldable pub pass : ℕ → ℕ → Handles → Handles
unfolding construct release
pass i j s = let (t, o) = release j s in construct i o t

abbrev pub destroy_fd : Option ℕ → Handles → Handles
destroy_fd none s = s
destroy_fd (some fd) s = system_close fd s

-- `IOHandle::~IOHandle`, and the end of the variable.
unfoldable pub destroy : ℕ → Handles → Handles
unfolding system_close
destroy i s = with_fd i none (destroy_fd (s.fd i) s)

-- `IOHandle::operator bool`
unfoldable pub is_open : ℕ → Handles → Bool
is_open i s = elim (s.fd i) [ none ↦ false | some fd ↦ true ]

-- What a program does to its handles.
pub data Operation : Type 0 where
  acquired passed : ℕ → ℕ → Operation
  defaulted closed released destroyed : ℕ → Operation
  moved assigned : ℕ → ℕ → Operation

unfoldable pub perform : Operation → Handles → Handles
unfolding acquire pass construct_default construct_moved close assign_moved release destroy
perform (acquired i fd) s = acquire i fd s
perform (passed i j) s = pass i j s
perform (defaulted i) s = construct_default i s
perform (closed i) s = close i s
perform (released i) s = (release i s).0
perform (destroyed i) s = destroy i s
perform (moved i j) s = construct_moved i j s
perform (assigned i j) s = assign_moved i j s

unfoldable pub perform_all : List Operation → Handles → Handles
unfolding perform
perform_all [] s = s
perform_all (o ∷ os) s = perform_all os (perform o s)
