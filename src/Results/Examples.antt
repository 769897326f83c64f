-- ===== src/Results/Examples.antt =====
-- Runs and instances for the result records.
use rules_verilog.Base.{◌∷◌, ◌≡◌, refl, true, false, none, some, [], arith, if◌then◌else◌}
use rules_verilog.Status.{JobStatus}
use rules_verilog.Results.Records.{
  Run, Test, RunStatus, of_job, create_run, record_test_job, same_test,
}
use rules_verilog.Results.Final.{finalize_run}
use rules_verilog.Results.Store.{History}
use rules_verilog.Results.Upsert.{
  AreUnique, PutAt, occurrences, same_test-IsKeyTest, record_test_job-occurrences,
}
use rules_verilog.Results.Report.{format_duration, format_history, format_run, entries}

abbrev test : JobStatus → Test
test status = record {
  bench = some "top";
  target = some "//top:smoke";
  iteration = some 1;
  seed = some 7;
  status = of_job status;
  simulation_started = true;
  cmp_log = none;
  stdout_log = none;
  waves_enabled = false;
  run_script = none;
  interval = some (0, 10);
}

abbrev empty_run : Run
empty_run = create_run "id" "now" 2 false

abbrev one_test : Run
one_test = record_test_job (test JobStatus.passed) empty_run

one_test_passed :
    (finalize_run "later" none false (record one_test { planned_tests = some 1 })).status
    ≡ RunStatus.passed
unfolding finalize_run create_run record_test_job
one_test_passed = refl

nothing_recorded : AreUnique empty_run
unfolding create_run
nothing_recorded t = omega arith

record_test_job-occurrences_example :
    (occurrences same_test same_test-IsKeyTest
        (test JobStatus.failed)
        (record_test_job (test JobStatus.passed) empty_run).tests
      ≡ (if same_test (test JobStatus.passed) (test JobStatus.failed)
          then 1
          else occurrences same_test same_test-IsKeyTest (test JobStatus.failed) empty_run.tests))
    × AreUnique (record_test_job (test JobStatus.passed) empty_run)
    × PutAt same_test same_test-IsKeyTest
        (test JobStatus.passed)
        empty_run.tests
        (record_test_job (test JobStatus.passed) empty_run).tests
record_test_job-occurrences_example =
    record_test_job-occurrences (test JobStatus.passed) (test JobStatus.failed) empty_run
      nothing_recorded

abbrev empty_history : History
empty_history = record { last_run = none; runs = [] }

one_hour : format_duration (some 3723500) ≡ some (1, 2, 3)
unfolding format_duration
one_hour = refl

one_entry : format_history (one_test ∷ []) 5 none false ≡ entries (format_run 1 one_test ∷ [])
unfolding format_history
one_entry = refl
