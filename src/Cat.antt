-- ===== src/Cat.antt =====
-- `netevent cat` (main.cpp, `cmd_cat` behind its options): a device is announced and its events are
-- sent. Each answer of the kernel is one round of the loop; without an answer it waits. The output
-- takes the announcement in full. The options are not part of the model.
pub mod Events
pub mod Pipeline
pub mod Show
pub mod Legacy
use netevent.Prelude.{ℕ, zero, suc, Bool, true, false, List, [], ◌∷◌, ◌++◌, Bytes, if◌then◌else◌}
use netevent.Packet.{InputEvent, hello_packet, event_packet}
use netevent.Device.In.{Evdev, InDevice, grab, Writes, write_ne2_add_device}
use netevent.Device.In.Reads.{Answer, ReadError, Got, got, refused, read}

pub data CatError : Type 0 where
  grab_failed hello_failed announce_failed : CatError
  read_error : ReadError → CatError

-- `cmd_cat` returns an exit code, throws, or waits for the device.
pub data CatEnd : Type 0 where
  returned : ℕ → CatEnd
  threw : CatError → CatEnd
  waits : CatEnd

-- What was written, and the end.
pub record Cat : Type 0 where
  pub sent : List Bytes
  pub ended : CatEnd

-- Whether the output takes the greeting and the n-th event.
pub record Output : Type 0 where
  pub takes_hello : Bool
  pub takes : ℕ → Bool

abbrev pub stops : CatEnd → Cat
stops e = record { sent = []; ended = e }

abbrev pub sending : Bytes → Cat → Cat
sending b c = record c { sent = b ∷ c.sent }

-- One round: `toNet`, the write and the next rounds.
unfoldable pub round : Cat → Bool → Got → Cat
round rest taken (got ev false) = stops (returned 0)
round rest true (got ev true) = sending (event_packet 0 ev) rest
round rest false (got ev true) = stops (returned 2)
round rest taken (refused d e) = stops (threw (read_error e))

-- `while (dev.read(&pkt.event.event))`
unfoldable pub cat_events : (ℕ → Bool) → ℕ → InDevice → List Answer → Cat
unfolding round read
cat_events takes n d [] = stops waits
cat_events takes n d (a ∷ answers) = round (cat_events takes (suc n) d answers) (takes n) (read a d)

-- Behind the announcement, which throws where a request fails.
abbrev pub announced : Writes → Cat → Cat
announced w c =
    if w.finished
    then record { sent = w.sent ++ c.sent; ended = c.ended }
    else record { sent = w.sent; ended = threw announce_failed }

-- `writeHello`, `writeNE2AddDevice` and the loop.
unfoldable pub cat_device : Evdev → Output → InDevice → List Answer → Cat
unfolding write_ne2_add_device cat_events
cat_device k out d answers =
    if out.takes_hello
    then sending hello_packet
        (announced (write_ne2_add_device k 0 d) (cat_events out.takes 0 d answers))
    else stops (threw hello_failed)

abbrev pub cat_grabbed : Evdev → Output → List Answer → InDevice × Bool → Cat
cat_grabbed k out answers (d, true) = cat_device k out d answers
cat_grabbed k out answers (d, false) = stops (threw grab_failed)

-- `cmd_cat` without `--legacy`, from the grab on.
unfoldable pub cat : Evdev → Output → Bool → InDevice → List Answer → Cat
unfolding cat_device grab
cat k out opt_grab d answers =
    cat_grabbed k out answers (if opt_grab then grab k true d else (d, true))
