-- ===== src/ActiveRuns.antt =====
-- lib/simmer_state.py: the registration of the active runs, in one file for each run, and the report
-- on them.
pub mod State
pub mod Loading
pub mod Format
mod Examples
