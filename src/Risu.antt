-- ===== src/Risu.antt =====
-- risu.c and risu.h: the tool itself, over an architecture.
pub mod Op
pub mod Header
pub mod Arch
pub mod State
pub mod Master
pub mod Apprentice
pub mod Run
pub mod Lawful
pub mod Sound
pub mod Trace
pub mod Socket
