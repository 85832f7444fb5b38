-- ===== src/Daemon.antt =====
-- The daemon (daemon.cpp): its global state, the handlers of its commands and callbacks, and the
-- steps of its main loop.
pub mod Map
pub mod State
pub mod Queue
pub mod Events
pub mod Inputs
pub mod Outputs
pub mod Commands
pub mod Loop
pub mod Hotkeys
pub mod Ids
pub mod Safety
pub mod Forward
pub mod Scripts
pub mod Valid
pub mod Main
