-- ===== src/Scheduler/Finish.antt =====
-- lib/job_lib.py, JobManager._complete_job and _record_incomplete_shutdown: the end of a job whose
-- subprocess has exited, and of one whose process group could not be reaped.
use rules_verilog.Base.{
  ℕ, ◌+◌, Bool, true, none, some, List, [], ◌∷◌, ◌++◌, elem, remove, if◌then◌else◌,
}
use rules_verilog.Status.{JobStatus, failed, successful}
use rules_verilog.Scheduler.State.{Statuses, assign, mark, Manager}
use rules_verilog.Scheduler.Skip.{move_children_to_skipped}
use rules_verilog.Scheduler.Promote.{Promoted, move_todo_to_ready}
use rules_verilog.Scheduler.Launch.{graceful_exit, exit_at_quit_count, append_done}

-- What the hook `post_run` does: the statuses that it assigns to its job, in order, and whether it
-- raises in the end.
pub record PostRun : Type 0 where
  pub assigns : List JobStatus
  pub raises : Bool

-- The hook with its handler: an illegal assignment raises as well, and any exception marks the job
-- as failed.
unfoldable pub post_run : ℕ → Bool → List JobStatus → Statuses → Statuses
post_run j raises [] status = if raises then mark j failed status else status
post_run j raises (s ∷ ss) status = elim (assign j s status) [
  | none ↦ mark j failed status
  | some status' ↦ post_run j raises ss status'
]

-- The locked section of `_complete_job`, up to the last move of the todo queue.
abbrev pub count_error : ℕ → Manager → Manager
count_error j m =
    if successful (m.status j)
    then m
    else move_children_to_skipped j
        (exit_at_quit_count (record m { error_count = m.error_count + 1 }))

abbrev pub file_done : ℕ → Manager → Manager
file_done j m = record m { finalizing = remove j m.finalizing; done = m.done ++ (j ∷ []) }

abbrev pub run_post_run : PostRun → ℕ → Manager → Manager
run_post_run hook j m = record m { status = post_run j hook.raises hook.assigns m.status }

unfoldable pub complete_job : PostRun → ℕ → Manager → Promoted
unfolding post_run move_children_to_skipped graceful_exit move_todo_to_ready
complete_job hook j m = move_todo_to_ready (file_done j (count_error j (run_post_run hook j m)))

-- The scheduler thread's move of a job whose subprocess has exited, under its two guards.
unfoldable pub start_finalizing : ℕ → Manager → Manager
start_finalizing j m = record m {
  active = remove j m.active;
  finalizing = m.finalizing ++ (j ∷ []);
}

abbrev pub drop_active : ℕ → Manager → Manager
drop_active j m = record m {
  active = remove j m.active;
  shutdown_incomplete = true;
  error_count = m.error_count + 1;
}

unfoldable pub record_incomplete_shutdown : ℕ → Manager → Manager
unfolding move_children_to_skipped graceful_exit
record_incomplete_shutdown j m =
    let marked = record m { status = mark j failed m.status } in
    if elem j m.active
    then append_done j (graceful_exit (move_children_to_skipped j (drop_active j marked)))
    else marked
