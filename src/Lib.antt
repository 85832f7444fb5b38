-- ===== src/Lib.antt =====
-- netevent shares input devices between hosts: it reads event devices, sends their events as packets
-- over files, pipes and sockets, and creates the devices again on the other side with uinput. This
-- library models the program's own logic.
--
-- Parts, and the code that each models (paths from the repository's root):
--   Prelude          Boolean tests, byte strings, lists over the native numbers
--   Wire             the byte orders of 16, 32 and 64 bits
--   Io               src/utils.h: mustRead over the answers of read
--   Bits             src/bitfield.h, src/bitfield.cpp: Bits, its access and its resizing
--   Text.Number      src/main.cpp: parseLong, parseULong, parseBool; src/utils.h: join
--   Text.Event       src/main.h, src/main.cpp: kEVMap, EV2String, String2EV; src/daemon.cpp: the
--                    specification that the hotkey commands read
--   Text.Lexer       src/daemon.cpp: isWhite, skipWhite, parseString, parseClientCommand
--   Packet           src/main.h: InputEvent, NE2Packet; src/main.cpp: writeHello, checkHello
--   Device.In        src/reader.cpp: InDevice, which announces a device by writeNE2AddDevice
--   Device.Out       src/writer.cpp: OutDevice, which newFromNE2AddCommand makes from the bytes
--   Device.Transfer  what the two sides do to each other
--   Device.Legacy    src/reader.cpp, src/writer.cpp: writeNeteventHeader, newFromNeteventStream
--   Create           src/main.cpp: readHello and the packet loop of cmd_create; Create.Messages is its
--                    abstract specification, a session of messages; Create.Start is what
--                    cmd_create does in front of the loop
--   Cat              src/main.cpp: cmd_cat, which announces a device and sends its events, and
--                    cmd_show, which prints them; Cat.Legacy the protocol of version 1 in cmd_cat
--                    and cmd_create_legacy
--   Program          src/main.cpp: main, cmd_show, cmd_cat and cmd_create as wholes
--   Options          src/main.cpp, src/daemon.cpp: the options of the subcommands
--   Client           src/main.cpp: cmd_command, and the loop of cat that copies
--   Exceptions       src/types.h, src/main.cpp: the messages of MsgException and ErrnoException
--   Handle           src/iohandle.h: IOHandle, the owners of descriptors
--   Socket           src/socket.h, src/socket.cpp: Socket, with its address as bytes
--   Daemon           src/daemon.cpp: State holds the globals as one record; Queue, Events, Inputs,
--                    Outputs and Commands its functions; Loop the two queues and the main loop;
--                    Valid what holds of the state at any time; Main cmd_daemon as a whole
--   Tests            the theorems at concrete inputs
--
-- A function that reads a stream takes its bytes and returns what is left of them. A function of the
-- daemon takes the state and returns the state with a value or with an exception, which keeps what
-- was done before it. What the daemon writes, runs and answers is recorded in the state's trace.
--
-- Parameters: what structures are in memory and the greatest codes of the kernel's headers
-- (Device.Legacy), the printf of the C library (Exceptions), the answers of the kernel about event
-- devices (Evdev), the uinput driver (Uinput), allocation in Bits, and the system calls of the daemon
-- (Env: writes, opening devices and outputs, accept, fork, the lines of clients and files). The answers of poll are an argument of the main
-- loop. Integers of w bits are numbers below 2 ^ w, signed ones their patterns.
--
-- Fuel: the loop of parseClientCommand has one unit more than the text has characters, and every
-- round consumes a character. The nesting of commands in event actions and files has no bound in the
-- program; Daemon.Commands.Dispatch.run_text counts its depth and returns out_of_fuel beyond it.
--
-- The loop of cmd_create has one unit more than its client sends bytes, and every round takes a
-- packet; the loop of cmd_cat takes one answer of the kernel per round.
--
-- A vector that is pushed to while processRemoveQueue iterates over it is taken not to move, so that
-- the loop sees the descriptors that were queued at its start. In the same way the text of an
-- action is taken to stay as it is while its commands run; in the program an action that removes or
-- sets itself frees the text that parseClientCommand reads on in. Exceptions keep their kind, not
-- their text.
--
-- Not modelled: getopt_long, the shells that the daemon starts, signals at other times than in
-- poll, and the formatting of messages.
pub mod Prelude
pub mod Wire
pub mod Io
pub mod Bits
pub mod Text
pub mod Packet
pub mod Device
pub mod Daemon
pub mod Create
pub mod Cat
pub mod Exceptions
pub mod Program
pub mod Client
pub mod Options
pub mod Handle
pub mod Socket
pub mod Tests
