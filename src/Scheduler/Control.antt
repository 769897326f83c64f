-- ===== src/Scheduler/Control.antt =====
-- lib/job_lib.py, JobManager.add_job, pause, resume, stop, kill, wait and interrupted_jobs: the
-- locked sections that other threads run.
use rules_verilog.Base.{
  ℕ, suc, Bool, true, false, not, List, [], ◌∷◌, ◌++◌, elem, ◌&&◌, ◌||◌, if◌then◌else◌,
}
use rules_verilog.Queue.{insort_right}
use rules_verilog.Scheduler.State.{Manager}
use rules_verilog.Scheduler.Launch.{mark_all}

unfoldable pub add_job : ℕ → Manager → Manager
add_job j m =
    if not m.done_grace_exit && m.thread_active
    then record m { todo = insort_right m.graph.priority j m.todo }
    else record m { skipped = m.skipped ++ (j ∷ []) }

-- `pause`: the flag; the caller then pauses the runners of the active jobs.
unfoldable pub pause : Manager → Manager
pause m = if m.thread_active then record m { paused = true } else m

unfoldable pub resume : Manager → Manager
resume m = record m { paused = false }

-- The loops of `pause` and `resume` over the jobs that were active, and their results: a job counts
-- where its runner answers true, and a runner that raises answers false.
abbrev pub count_answers : (ℕ → Bool) → List ℕ → ℕ
count_answers answer [] = 0
count_answers answer (j ∷ js) =
    if answer j then suc (count_answers answer js) else count_answers answer js

unfoldable pub pause_result : (answer : ℕ → Bool) → Manager → ℕ
pause_result answer m = if m.thread_active then count_answers answer m.active else 0

unfoldable pub resume_result : (answer : ℕ → Bool) → Manager → ℕ
resume_result answer m = count_answers answer m.active

unfoldable pub stop : Manager → Manager
stop m = record m { thread_active = false }

abbrev pub request_cancel_all : List ℕ → (ℕ → Bool) → ℕ → Bool
request_cancel_all js requested k = elem k js || requested k

-- The locked section of `kill`.
unfoldable pub kill : Manager → Manager
kill m = record m {
  exited_prematurely = true;
  thread_active = false;
  paused = false;
  interrupted_jobs = (m.launching ++ m.active) ++ m.finalizing;
  cancel_requested =
      request_cancel_all (((m.todo ++ m.ready) ++ m.launching) ++ m.active) m.cancel_requested;
  status = mark_all (m.todo ++ m.ready) m.status;
  skipped = (m.skipped ++ m.todo) ++ m.ready;
  todo = [];
  ready = [];
}

abbrev pub is_empty : List ℕ → Bool
is_empty [] = true
is_empty (_ ∷ _) = false

-- The loop condition of `wait`, negated: `wait` returns when no queue of unfinished jobs is left.
unfoldable pub wait_returns : Manager → Bool
wait_returns m =
    is_empty m.todo
    && is_empty m.ready
    && is_empty m.launching
    && is_empty m.active
    && is_empty m.finalizing

abbrev pub filter_out : List ℕ → List ℕ → List ℕ
filter_out done [] = []
filter_out done (j ∷ js) = if elem j done then filter_out done js else j ∷ filter_out done js

unfoldable pub interrupted_jobs : Manager → List ℕ
interrupted_jobs m = filter_out m.done m.interrupted_jobs
