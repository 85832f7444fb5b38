-- ===== src/Tests/Programs.antt =====
-- Examples for the subcommands from their command lines on.
use netevent.Prelude.{str_eq, take, codes, some, ◌≡◌, refl, true, false, [], ◌∷◌, arith}
use netevent.Device.In.Reads.{gone, open_device, opens, unexpected_eof}
use netevent.Device.Transfer.Spec.{answering, concat}
use netevent.Create.{Ended, resume}
use netevent.Create.Messages.{goes}
use netevent.Create.Heard.{Matches}
use netevent.Cat.{Cat, threw, read_error}
use netevent.Cat.Events.{answers}
use netevent.Cat.Pipeline.{device, node, shared}
use netevent.Cat.Show.{Shows}
use netevent.Text.Number.{case_eq, parse_ulong}
use netevent.Options.{
  Arguments, go, CatOptions, cat_options, cat_arguments, show_options, show_operands,
  show_arguments,
}
use netevent.Options.Create.{
  CreateOptions, create_defaults, option_of, duplicates_of, create_option, create_options,
  check_options, create_arguments,
}
use netevent.Program.{
  Source, LegacyWorld, cat_ran, cat_status, cmd_show, cmd_cat, create_ran, cmd_create,
}
use netevent.Program.Piped.{cmd_cat-cmd_create}
use netevent.Program.Shown.{cmd_show-Shows}
use netevent.Tests.Headers.{big_endian, big_endian_events, maxima}
use netevent.Tests.Commands.{start_system}
use netevent.Tests.Devices.{driver, some_codes, an_axis}
use netevent.Tests.Sessions.{pad, pad-Fits, receiving, fives, receiving-Serves, key, rumble, pipe}

abbrev source : Source
source = record {
  node_at = λ path. node 4 pad;
  evdev = answering some_codes an_axis;
  states = λ ev size. some (some_codes ev);
  output = pipe;
  events = big_endian_events;
  layout = big_endian;
  max_of = maxima;
}

abbrev version_1 : LegacyWorld
version_1 = record {
  events = big_endian_events;
  layout = big_endian;
  max_of = maxima;
  driver = driver;
  takes = λ n ev. true;
}

-- `netevent cat -G /dev/input/event4`
abbrev cat_command : Arguments
cat_command = record { results = (b'G', []) ∷ []; operands = codes "/dev/input/event4" ∷ [] }

abbrev cat_chosen : CatOptions
cat_chosen = record { legacy = false; grab = false }

cat_command_read : cat_arguments cat_command ≡ go (cat_chosen, codes "/dev/input/event4")
unfolding cat_arguments cat_options
cat_command_read = refl

-- `netevent create --duplicates=resume --daemonize`
abbrev create_command : Arguments
create_command = record { results = (b'd', codes "resume") ∷ (0x1003, []) ∷ []; operands = [] }

abbrev create_chosen : CreateOptions
create_chosen = record create_defaults { no_legacy = true; daemonize = true; duplicates = resume }

create_command_read : create_arguments create_command ≡ go create_chosen
unfolding create_arguments create_options create_option option_of duplicates_of case_eq str_eq
    check_options
create_command_read = refl

cmd_cat-cmd_create_example :
    (c : Cat) × (e : Ended) × (cmd_cat source cat_command (answers (key ∷ rumble ∷ []) gone)
      ≡ cat_ran c)
    × (c.ended ≡ threw (read_error unexpected_eof))
    × (cmd_create start_system receiving version_1 create_command
          (record { bytes = concat c.sent; fails = false } ∷ [])
        ≡ create_ran e)
    × Matches (goes (shared fives pad (key ∷ rumble ∷ []))) e
cmd_cat-cmd_create_example =
    cmd_cat-cmd_create source start_system receiving version_1 fives pad 4 (key ∷ rumble ∷ []) gone
      cat_command create_command cat_chosen (codes "/dev/input/event4") create_chosen
      cat_command_read refl refl refl refl (λ n. refl) pad-Fits receiving-Serves create_command_read
      refl refl refl

-- `netevent show -g /dev/input/event4 2`
abbrev show_command : Arguments
show_command = record {
  results = (b'g', []) ∷ [];
  operands = codes "/dev/input/event4" ∷ codes "2" ∷ [];
}

show_command_read : show_arguments show_command ≡ go (true, codes "/dev/input/event4", 2)
unfolding show_arguments show_options show_operands parse_ulong
show_command_read = refl

pad_opened : open_device (node 4 pad) ≡ opens (device 4 false pad)
unfolding open_device
pad_opened = refl

-- Three events are there, two are asked for.
cmd_show-Shows_example :
    (c : Cat) × (cmd_show source show_command (answers (key ∷ key ∷ key ∷ []) gone) ≡ cat_ran c)
    × Shows c.sent (take 2 (key ∷ key ∷ key ∷ []))
    × (cat_status (cmd_show source show_command (answers (key ∷ key ∷ key ∷ []) gone)) ≡ some 0)
cmd_show-Shows_example =
    cmd_show-Shows source show_command true (codes "/dev/input/event4") 2 (device 4 false pad)
      (key ∷ key ∷ key ∷ []) gone show_command_read pad_opened refl
      (omega arith, (omega arith, (omega arith, tt)))
