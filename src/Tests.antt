-- ===== src/Tests.antt =====
-- The properties at concrete inputs.
mod Toy
mod Wire
mod Replays
mod Machines
mod Power
mod Rules
mod Runs
mod Mac
mod Mainframe
mod Loong
mod Arm64
mod Intel
mod Sockets
mod Commands
