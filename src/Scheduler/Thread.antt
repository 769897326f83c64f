-- ===== src/Scheduler/Thread.antt =====
-- lib/job_lib.py, JobManager._run_jobs: the loop of the scheduler thread. Every locked section is
-- one step, hooks and subprocesses answer between the steps, and calls of other threads come
-- between any two steps.
pub mod Places
pub mod Steps
pub mod Reachable
pub mod Safety
pub mod Sleep
use rules_verilog.Base.{ℕ, zero, suc, Bool, true, false, List, [], ◌∷◌, elem, if◌then◌else◌}
use rules_verilog.Scheduler.State.{Manager}
use rules_verilog.Scheduler.Promote.{Promoted, promoted, value_error, move_todo_to_ready}
use rules_verilog.Scheduler.Launch.{
  Taken, no_job, raised, job, take_ready_job, launch_cancelled, launch_failed, launched,
}
use rules_verilog.Scheduler.Finish.{
  PostRun, complete_job, start_finalizing, record_incomplete_shutdown,
}
use rules_verilog.Scheduler.Control.{add_job, pause, resume, stop, kill}

-- Where the scheduler thread stands: at the top of its loop, polling the active jobs, inside
-- `_launch_job` or `_complete_job` of a job, or ended, by its flag or by an uncaught exception.
pub data Place : Type 0 where
  at_loop polling stopped crashed : Place
  in_launch : ℕ → Place
  in_complete : ℕ → Place

pub record System : Type 0 where
  pub place : Place
  pub manager : Manager

-- What the hooks of a launch come to.
pub data LaunchEnd : Type 0 where
  started : (runner_stopped : Bool) → LaunchEnd
  cancelled broken : LaunchEnd

-- What `check_for_done` says of the active jobs, in order, up to the first that is done.
pub data Poll : Type 0 where
  none_done : Poll
  exited : ℕ → Poll
  unreaped : ℕ → Poll

pub data Event : Type 0 where
  loop_top : Event
  launch_ends : LaunchEnd → Event
  poll_ends : Poll → Event
  post_run_ends : PostRun → Event
  call_add : ℕ → Event
  call_pause call_resume call_stop call_kill : Event

abbrev pub taken_system : Manager → Taken → System
taken_system m no_job = record { place = polling; manager = m }
taken_system m raised = record { place = crashed; manager = m }
taken_system m (job j m') = record { place = in_launch j; manager = m' }

abbrev pub promoted_system : Promoted → System
promoted_system (promoted m) = taken_system m (take_ready_job m)
promoted_system (value_error m) = record { place = crashed; manager = m }

-- The first locked section of the loop.
unfoldable pub run_loop_top : Manager → System
unfolding move_todo_to_ready take_ready_job
run_loop_top m =
    if m.thread_active
    then promoted_system (move_todo_to_ready m)
    else record { place = stopped; manager = m }

unfoldable pub end_launch : LaunchEnd → ℕ → Manager → Manager
unfolding launched launch_cancelled launch_failed
end_launch (started runner_stopped) j m = launched runner_stopped j m
end_launch cancelled j m = launch_cancelled j m
end_launch broken j m = launch_failed j m

-- The branch of the loop for a job that is done: its two guards come in the order of the code.
unfoldable pub end_poll : Poll → Manager → System
unfolding record_incomplete_shutdown start_finalizing
end_poll none_done m = record { place = at_loop; manager = m }
end_poll (unreaped j) m = record { place = at_loop; manager = record_incomplete_shutdown j m }
end_poll (exited j) m =
    if m.thread_active
    then (if elem j m.active
        then record { place = in_complete j; manager = start_finalizing j m }
        else record { place = at_loop; manager = m })
    else record { place = stopped; manager = m }

abbrev pub completed_system : Promoted → System
completed_system (promoted m) = record { place = at_loop; manager = m }
completed_system (value_error m) = record { place = crashed; manager = m }

abbrev pub with_manager : System → Manager → System
with_manager s m = record { place = s.place; manager = m }

-- The event of the scheduler thread at its place; an event of another place does not happen.
abbrev pub thread_step : Place → Event → Manager → System
thread_step at_loop loop_top m = run_loop_top m
thread_step polling (poll_ends p) m = end_poll p m
thread_step (in_launch j) (launch_ends e) m = record { place = at_loop; manager = end_launch e j m }
thread_step (in_complete j) (post_run_ends h) m = completed_system (complete_job h j m)
thread_step p _ m = record { place = p; manager = m }

unfoldable pub step : Event → System → System
unfolding run_loop_top end_launch end_poll complete_job add_job pause resume stop kill
step (call_add j) s = with_manager s (add_job j s.manager)
step call_pause s = with_manager s (pause s.manager)
step call_resume s = with_manager s (resume s.manager)
step call_stop s = with_manager s (stop s.manager)
step call_kill s = with_manager s (kill s.manager)
step e s = thread_step s.place e s.manager

unfoldable pub run : List Event → System → System
unfolding step
run [] s = s
run (e ∷ es) s = run es (step e s)
