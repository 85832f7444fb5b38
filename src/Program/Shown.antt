-- ===== src/Program/Shown.antt =====
-- `netevent show` from its command line on.
use netevent.Prelude.{
  ℕ, ◌≡◌, refl, ap, subst, ◌∙◌, Bool, true, false, List, none, some, Bytes, length, take, leb,
  if◌then◌else◌,
}
use netevent.Device.In.{InDevice, grab}
use netevent.Device.In.Reads.{
  RawEvent, Stop, Answer, Node, Opening, opens, open_throws, open_device, with_fd, with_name,
  with_identity, with_types,
}
use netevent.Bits.{byte_size}
use netevent.Text.Event.{ev_max}
use netevent.Cat.{Cat, CatError, returned, threw}
use netevent.Cat.Show.{Shows, AllNamed, show_events, show_events-Shows}
use netevent.Cat.Events.{answers}
use netevent.Options.{Arguments, go, show_arguments}
use netevent.Program.{
  Source, cat_ran, end_status, cat_status, show_grabbed, show_opened, show_parsed, cmd_show,
}

-- A device that was just opened is not at its end.
abbrev pub NotAtEnd : Opening → Type 0
NotAtEnd (opens d) = d.eof ≡ false
NotAtEnd (open_throws e) = Unit {0}

open_device-NotAtEnd : (n : Node) → NotAtEnd (open_device n)
unfolding open_device
open_device-NotAtEnd n = elim n.opened as (λ x. NotAtEnd (with_fd n x)) [
  | none ↦ tt
  | some fd ↦ elim n.name_buffer as (λ x. NotAtEnd (with_name n fd x)) [
    | none ↦ tt
    | some name ↦ elim n.identity as (λ x. NotAtEnd (with_identity n fd name x)) [
      | none ↦ tt
      | some id ↦ elim (n.types (byte_size ev_max)) as (λ x. NotAtEnd (with_types fd name id x)) [
        | none ↦ tt
        | some types ↦ refl
      ]
    ]
  ]
]

-- What `grab` leaves of a device that was opened.
grabbed :
    (k : Source) (max : ℕ) (l : List Answer) (d : InDevice) (opt_grab : Bool)
    → k.evdev.grab_errno true ≡ 0
    → (d' : InDevice) × (show_grabbed k max l (if opt_grab then grab k.evdev true d else (d, true))
        ≡ show_events max d' l)
      × (d'.eof ≡ d.eof)
unfolding grab
grabbed k max l d true h = (record d { grabbing = true }, rw h refl, refl)
grabbed k max l d false h = (d, refl, refl)

status_if :
    (b : Bool) (e : CatError)
    → end_status (if b then returned 0 else threw e) ≡ some (if b then 0 else 2)
status_if true e = refl
status_if false e = refl

-- `netevent show DEVICE COUNT` on a device that it opens, that can be grabbed if it is to be, and
-- that delivers events of the first six types and then stops: it prints the first of the events, up
-- to the count, one line each, and the hotkey commands read every line as the type, code and value
-- of its event. The status of the process is 0 if there were as many events as asked for, and 2 if
-- the device stopped before.
pub cmd_show-Shows :
    (k : Source) (a : Arguments) (opt_grab : Bool) (path : Bytes) (max : ℕ) (d : InDevice)
    (raws : List RawEvent) (s : Stop)
    → show_arguments a ≡ go (opt_grab, path, max)
    → open_device (k.node_at path) ≡ opens d
    → k.evdev.grab_errno true ≡ 0
    → AllNamed raws
    → (c : Cat) × (cmd_show k a (answers raws s) ≡ cat_ran c)
      × Shows c.sent (take max raws)
      × (cat_status (cmd_show k a (answers raws s)) ≡ some (if leb max (length raws) then 0 else 2))
unfolding cmd_show cat_status
cmd_show-Shows k a opt_grab path max d raws s parsed there free named =
    let l : List Answer = answers raws s in
    let fresh : d.eof ≡ false = subst NotAtEnd there (open_device-NotAtEnd (k.node_at path)) in
    let (d', same, eof) = grabbed k max l d opt_grab free in
    let (shows, ended) = show_events-Shows max d' raws s (eof ∙ fresh) named in
    let runs : show_parsed k l (show_arguments a) ≡ cat_ran (show_events max d' l) =
      ap (show_parsed k l) parsed ∙ ap (show_opened k opt_grab max l) there ∙ ap cat_ran same in
    (
      show_events max d' l,
      runs,
      shows,
      ap cat_status runs ∙ ap end_status ended ∙ status_if (leb max (length raws)) _,
    )
