-- ===== src/Tests.antt =====
-- Examples: the theorems applied to concrete inputs, and runs of the definitions.
mod Texts
mod Devices
mod Daemons
mod Programs
mod Sessions
mod Sockets
mod Headers
mod Arguments
mod Commands
