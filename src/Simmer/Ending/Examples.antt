-- ===== src/Simmer/Ending/Examples.antt =====
-- Ends of the program, with one test.
use rules_verilog.Base.{
  ◌≡◌, ◌≢◌, refl, ◌≤◌, Bool, true, false, none, some, [], ◌∷◌, length, ◌↔◌, ◌⊎◌,
}
use rules_verilog.Status.{JobStatus}
use rules_verilog.Results.Records.{of_job, RunStatus, Test, Run, create_run, record_test_job}
use rules_verilog.Results.Final.{finalize_run, failed_tests, interrupted_tests, planned}
use rules_verilog.Results.Store.{save_run, should_save_run}
use rules_verilog.Simmer.Ending.{
  gives, interrupts, Phases, Session, status, started_test, finish_main, interrupt_main,
}
use rules_verilog.Simmer.Ending.Success.{
  GoesWell, needs_saving, final_run, finish_main-success, finish_main-record,
}
use rules_verilog.Simmer.Ending.Once.{IsFailed, IsUnspoilt, cleanups_of, ending_once}

abbrev smoke : Test
smoke = record {
  bench = some "top";
  target = some "//top:smoke";
  iteration = some 1;
  seed = some 7;
  status = of_job JobStatus.passed;
  simulation_started = true;
  cmp_log = none;
  stdout_log = none;
  waves_enabled = false;
  run_script = none;
  interval = some (0, 10);
}

abbrev one_run : Run
one_run = record_test_job smoke (create_run "id" "now" 1 false)

abbrev before : Session
before = record {
  attempted = false;
  cleanups = 0;
  run = some one_run;
  history = record { last_run = none; runs = [] };
}

-- The phases with a result of the cleanup.
abbrev phases : Bool → Phases
phases logged = record {
  shutdown_incomplete = false;
  workflow = gives false;
  reports = gives false;
  cleanup_answer = gives tt;
  has_logged = logged;
  total_failures = 0;
  saves = true;
  finished_at = "later";
  regression_log = none;
  max_runs = 100;
  stopped = started_test smoke ∷ [];
}

exits_zero : (finish_main (phases false) before).0 ≡ status 0
unfolding finish_main finalize_run should_save_run create_run record_test_job
exits_zero = refl

-- A warning in the log is enough for another status.
exits_one : (finish_main (phases true) before).0 ≡ status 1
unfolding finish_main finalize_run should_save_run create_run record_test_job
exits_one = refl

-- An interrupt during the reports.
exits_interrupted :
    (finish_main (record (phases false) { reports = interrupts }) before).0 ≡ status 130
unfolding finish_main
exits_interrupted = refl

finish_main-success_example :
    ((finish_main (phases false) before).0 ≡ status 0)
    ↔ GoesWell (phases false) × ((true ≡ true) ⊎ (needs_saving (phases false) before ≡ false))
finish_main-success_example = finish_main-success (phases false) before

finish_main-record_example :
    let after = (finish_main (phases false) before).1 in
    (after.run ≡ some (final_run (phases false) one_run))
    × (after.history ≡ (save_run (final_run (phases false) one_run) 100 before.history).1)
    × (((final_run (phases false) one_run).status ≡ RunStatus.passed)
        ↔ (one_run.tests ≢ [])
          × (failed_tests one_run.tests ≡ 0)
          × (interrupted_tests one_run.tests ≡ 0)
          × (planned one_run ≤ length one_run.tests))
finish_main-record_example = finish_main-record (phases false) before one_run refl exits_zero

ending_once_example :
    ((finish_main (phases false) before).1.cleanups ≡ cleanups_of (phases false))
    × (IsFailed (finish_main (phases false) before).1 ⊎ IsUnspoilt (phases false))
    × ((interrupt_main (phases false) (some true) before).1.cleanups ≡ 1)
    × IsFailed (interrupt_main (phases false) (some true) before).1
ending_once_example = ending_once (phases false) (some true) before one_run refl refl refl
