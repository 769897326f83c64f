-- ===== src/Scheduler.antt =====
-- lib/job_lib.py, class JobManager: the queues of the job scheduler and every locked section that
-- changes them. `State` has the data, `Skip` and `Promote` the moves out of the todo queue,
-- `Launch` and `Finish` the life of one job, `Control` and `Shutdown` the calls of other threads, and `Thread`
-- the interleaving of the scheduler thread with those calls.
pub mod Building
pub mod State
pub mod Waiting
pub mod Skip
pub mod Promote
pub mod Launch
pub mod Finish
pub mod Control
pub mod Thread
pub mod Invariant
pub mod Shutdown
mod Examples
