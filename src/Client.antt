-- ===== src/Client.antt =====
-- `netevent command` (main.cpp, `cmd_command`) and the loop that copies between two descriptors
-- (main.cpp, `cat`). The answers of the system are a parameter, with one answer to each `::read`.
pub mod Delivery
use netevent.Prelude.{
  ℕ, suc, Bool, true, false, List, [], ◌∷◌, Option, none, some, Bytes, if◌then◌else◌,
}
use netevent.Io.{Chunk, got, error}
use netevent.Text.Number.{join}
use netevent.Socket.{
  SocketError, State, fine, thrown, out_of_bounds, closed_socket, connect_unix, shutdown,
}
use netevent.Socket
use netevent.Create.Start.{is_abstract, address_name}

-- How a loop that copies ends: at the end of what it reads, where a read or a write fails, or it
-- waits.
pub data CopyEnd : Type 0 where
  at_end read_failed write_failed waits : CopyEnd

-- What was written, and the end.
pub record Copy : Type 0 where
  pub written : List Bytes
  pub ended : CopyEnd

abbrev pub copy_stops : CopyEnd → Copy
copy_stops e = record { written = []; ended = e }

-- The loops `while ((got = ::read(…)) > 0)`; `takes` tells whether the n-th write succeeds.
unfoldable pub copy : (ℕ → Bool) → ℕ → List Chunk → Copy
copy takes n [] = copy_stops waits
copy takes n (error e ∷ cs) = copy_stops read_failed
copy takes n (got [] ∷ cs) = copy_stops at_end
copy takes n (got (c ∷ b) ∷ cs) =
    let rest = copy takes (suc n) cs in
    if takes n
    then record { written = (c ∷ b) ∷ rest.written; ended = rest.ended }
    else copy_stops write_failed

-- `cat` returns 0 or throws.
pub data CatEnd : Type 0 where
  cat_returned : ℕ → CatEnd
  cat_write_error cat_read_error cat_waits : CatEnd

unfoldable pub cat_end : CopyEnd → CatEnd
cat_end at_end = cat_returned 0
cat_end read_failed = cat_read_error
cat_end write_failed = cat_write_error
cat_end waits = cat_waits

unfoldable pub cat : (ℕ → Bool) → List Chunk → List Bytes × CatEnd
unfolding copy cat_end
cat takes cs = let c = copy takes 0 cs in (c.written, cat_end c.ended)

-- What the system answers to `cmd_command`: about the socket, whether the command is written,
-- whether the socket is shut down for writing, the reads from it and the writes of what was read.
pub record System : Type 0 where
  pub buffer : Bytes
  pub socket_fd : Option ℕ
  pub connects : Bool
  pub sends : Bool
  pub shuts_down : Bool
  pub reads : List Chunk
  pub takes : ℕ → Bool

-- The command returns a status (255 is -1), throws where the socket fails, or waits for the answer.
pub data CommandEnd : Type 0 where
  status : ℕ → CommandEnd
  socket_failed : SocketError → CommandEnd
  waiting overflow : CommandEnd

pub record Request : Type 0 where
  pub sent : Option Bytes
  pub answer : List Bytes
  pub ended : CommandEnd

abbrev pub request_ends : CommandEnd → Request
request_ends e = record { sent = none; answer = []; ended = e }

unfoldable pub answer_end : CopyEnd → CommandEnd
answer_end at_end = status 0
answer_end read_failed = status 2
answer_end write_failed = status 255
answer_end waits = waiting

module _ (y : System) where
  -- Behind the write of the command, whose failure is only reported.
  unfoldable pub answered : Option Bytes → Request
  unfolding copy answer_end
  answered sent =
      let c = copy y.takes 0 y.reads in
      record { sent = sent; answer = c.written; ended = answer_end c.ended }

  abbrev pub after_shutdown : Option Bytes → Socket.Result → Request
  after_shutdown sent (fine s) = answered sent
  after_shutdown sent (thrown e s) = record { sent = sent; answer = []; ended = socket_failed e }
  after_shutdown sent out_of_bounds = record { sent = sent; answer = []; ended = overflow }

  abbrev pub after_connect : Bytes → Socket.Result → Request
  after_connect command (fine s) =
      after_shutdown (if y.sends then some command else none) (shutdown y.shuts_down s)
  after_connect command (thrown e s) = request_ends (socket_failed e)
  after_connect command out_of_bounds = request_ends overflow

  -- An empty command is fine.
  unfoldable pub send_command : Bytes → Bytes → Request
  unfolding answered connect_unix shutdown
  send_command name [] = request_ends (status 0)
  send_command name (c ∷ command) = after_connect (c ∷ command) (
      connect_unix (is_abstract name) (address_name name) y.buffer y.socket_fd y.connects
        (record { socket = closed_socket; calls = [] }))

  -- `cmd_command` with the arguments behind its name.
  unfoldable pub cmd_command : List Bytes → Request
  unfolding send_command
  cmd_command [] = request_ends (status 2)
  cmd_command (name ∷ []) = request_ends (status 2)
  cmd_command ([] ∷ piece ∷ pieces) = request_ends (status 3)
  cmd_command ((c ∷ name) ∷ piece ∷ pieces) = send_command (c ∷ name) (join b' ' (piece ∷ pieces))
