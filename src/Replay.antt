-- ===== src/Replay.antt =====
-- dre-replay-cli: the recorded events served to a program under a debugger.
pub mod Keys
pub mod Multi
pub mod Single
pub mod Summary
pub mod TimeFreeze
pub mod Session
pub mod Debugger
