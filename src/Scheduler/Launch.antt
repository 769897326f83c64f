-- ===== src/Scheduler/Launch.antt =====
-- lib/job_lib.py, JobManager._can_launch_locked, _take_ready_job_locked and _launch_job: a ready
-- job is taken where the limit allows it, and its launch succeeds, fails or is cancelled.
use rules_verilog.Base.{
  ℕ, ◌+◌, Bool, true, false, not, Option, none, some, List, [], ◌∷◌, ◌++◌, any, remove, length, ltb,
  leb, ◌==◌, if◌then◌else◌,
}
use rules_verilog.Status.{skipped, failed, completed}
use rules_verilog.Scheduler.State.{Statuses, mark, Manager, Mode, exclusive, parallel, unknown}
use rules_verilog.Scheduler.Skip.{move_children_to_skipped}

abbrev pub is_parallel : Mode → Bool
is_parallel parallel = true
is_parallel _ = false

abbrev pub running_jobs : Manager → List ℕ
running_jobs m = m.active ++ m.launching

-- `none` is the ValueError of an unknown execution mode.
unfoldable pub can_launch : Manager → ℕ → Option Bool
can_launch m j = elim (m.graph.mode j) [
  | exclusive ↦ some (length (running_jobs m) == 0)
  | parallel ↦
      if any (λ a. not (is_parallel (m.graph.mode a))) (running_jobs m)
      then some false
      else some (ltb (length (running_jobs m)) m.active_job_limit)
  | unknown ↦ none
]

-- What the loop over the ready queue finds: nothing, a job with the queue without it, or an error.
pub data Found : Type 0 where
  nothing mode_error : Found
  found : ℕ → List ℕ → Found

abbrev pub put_back : ℕ → Found → Found
put_back i nothing = nothing
put_back i mode_error = mode_error
put_back i (found j rest) = found j (i ∷ rest)

unfoldable pub find_ready : Manager → List ℕ → Found
find_ready m [] = nothing
find_ready m (j ∷ js) = elim (can_launch m j) [
  | none ↦ mode_error
  | some true ↦ found j js
  | some false ↦ put_back j (find_ready m js)
]

pub data Taken : Type 0 where
  no_job raised : Taken
  job : ℕ → Manager → Taken

abbrev pub take_found : Manager → Found → Taken
take_found m nothing = no_job
take_found m mode_error = raised
take_found m (found j rest) = job j (record m { ready = rest; launching = m.launching ++ (j ∷ []) })

unfoldable pub take_ready_job : Manager → Taken
unfolding find_ready
take_ready_job m = if m.paused then no_job else take_found m (find_ready m m.ready)

abbrev pub mark_uncompleted : ℕ → Statuses → Statuses
mark_uncompleted j status = if completed (status j) then status else mark j skipped status

abbrev pub mark_all : List ℕ → Statuses → Statuses
mark_all [] status = status
mark_all (j ∷ js) status = mark_all js (mark_uncompleted j status)

unfoldable pub graceful_exit : Manager → Manager
graceful_exit m = if m.done_grace_exit then m else record m {
  exited_prematurely = true;
  done_grace_exit = true;
  status = mark_all (m.todo ++ m.ready) m.status;
  skipped = (m.skipped ++ m.todo) ++ m.ready;
  todo = [];
  ready = [];
}

abbrev pub exit_at_quit_count : Manager → Manager
exit_at_quit_count m = if leb m.quit_count m.error_count then graceful_exit m else m

-- `_launch_job`, where the launch hooks raise JobCancelledError.
unfoldable pub launch_cancelled : ℕ → Manager → Manager
launch_cancelled j m = record m {
  status = mark_uncompleted j m.status;
  launching = remove j m.launching;
  skipped = m.skipped ++ (j ∷ []);
}

-- The first statements of the locked section for a launch that failed.
abbrev pub fail_launch : ℕ → Manager → Manager
fail_launch j m = record m {
  status = mark j failed m.status;
  launching = remove j m.launching;
  error_count = m.error_count + 1;
}

abbrev pub append_done : ℕ → Manager → Manager
append_done j m = record m { done = m.done ++ (j ∷ []) }

-- `_launch_job`, where the hooks or the start of the subprocess raise any other exception.
unfoldable pub launch_failed : ℕ → Manager → Manager
unfolding move_children_to_skipped graceful_exit
launch_failed j m =
    append_done j (exit_at_quit_count (move_children_to_skipped j (fail_launch j m)))

-- `_launch_job` after the subprocess has started. If the scheduler was stopped meanwhile, the
-- runner is killed and the job is in no queue any more; `stopped` says that the runner was
-- stopped and that the hook `cancel` returned.
unfoldable pub launched : (stopped : Bool) → ℕ → Manager → Manager
launched stopped j m =
    if m.thread_active
    then record m { launching = remove j m.launching; active = m.active ++ (j ∷ []) }
    else if stopped
    then record m { launching = remove j m.launching }
    else record m { launching = remove j m.launching; shutdown_incomplete = true }
