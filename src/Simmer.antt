-- ===== src/Simmer.antt =====
-- bin/simmer.py: the decisions of the command line tool around the scheduler: which simulator a run
-- uses, how many jobs run at once, what an interrupt does, and the state that is registered.
pub mod Interrupts
pub mod Simulators
pub mod Limits
pub mod Snapshot
pub mod Compile
pub mod Ending
pub mod TestEnd
pub mod RunDirectories
mod Examples
