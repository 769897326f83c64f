-- ===== src/Simmer/Snapshot.antt =====
-- bin/simmer.py, _active_run_snapshot: the state of a run that is registered while its jobs run.
use rules_verilog.Base.{
  ℕ, suc, ◌-◌, Bool, false, not, ◌&&◌, ◌||◌, String, Option, none, List, [], ◌∷◌, ◌++◌, elem, ◌==◌,
  if◌then◌else◌,
}
use rules_verilog.Results.Text.{truthy}
use rules_verilog.Status.{completed}
use rules_verilog.Scheduler.State.{Manager, Statuses}
use rules_verilog.Scheduler.Shutdown.{Snapshot, status_snapshot}

-- The values of the snapshot.
pub record RunState : Type 0 where
  pub status : String
  pub finished_tests : ℕ
  pub active_tests : ℕ
  pub queued_tests : ℕ
  pub compile_logs : List String
  pub result_log : Option String
  pub regression_log : Option String

abbrev pub count_where : (ℕ → Bool) → List ℕ → ℕ
count_where p [] = 0
count_where p (j ∷ js) = if p j then suc (count_where p js) else count_where p js

abbrev pub any_where : (ℕ → Bool) → List ℕ → Bool
any_where p [] = false
any_where p (j ∷ js) = p j || any_where p js

abbrev pub active_jobs : Snapshot → List ℕ
active_jobs s = s.launching ++ s.active ++ s.finalizing

-- The path of the first test that has one.
abbrev pub first_log : (ℕ → Option String) → List ℕ → Option String
first_log log [] = none
first_log log (j ∷ js) = if truthy (log j) then log j else first_log log js

-- The statuses are read after the snapshot of the scheduler, outside its lock, so they may be newer than
-- it. `has_started` is whether a job has a start time.
unfoldable pub active_run_snapshot :
    Manager
    → (statuses : Statuses) → (test_jobs : List ℕ) → (total_tests : ℕ) → (no_run : Bool)
    → (has_started : ℕ → Bool) → (log_path : ℕ → Option String) → (compile_logs : List String)
    → (regression_log : Option String) → RunState
unfolding status_snapshot
active_run_snapshot m statuses test_jobs total_tests no_run has_started log_path compile_logs
      regression_log =
    let scheduler = status_snapshot m in
    let finished = count_where (λ j. completed (statuses j)) test_jobs in
    let active = count_where (λ j. elem j (active_jobs scheduler)) test_jobs in
    let started = not (active == 0) || not (finished == 0) || any_where has_started test_jobs in
    record {
      status =
          if scheduler.paused
          then "PAUSED"
          else if started && not no_run
          then "RUNNING"
          else "COMPILING";
      finished_tests = finished;
      active_tests = active;
      queued_tests = total_tests - finished - active;
      compile_logs = compile_logs;
      result_log = if total_tests == 1 then first_log log_path test_jobs else none;
      regression_log = regression_log;
    }
