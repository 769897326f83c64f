-- ===== src/Results/Statuses.antt =====
-- The final status and the summary of a run.
use rules_verilog.Base.{
  ℕ, suc, ◌+◌, ◌≤◌, ◌≡◌, ◌≢◌, ◌↔◌, refl, Bool, false, not, ◌&&◌, ◌||◌, String, Option, List, [],
  ◌∷◌, length, any, max, if◌then◌else◌, arith, ltb,
}
use rules_verilog.Status.{JobStatus}
use rules_verilog.Results.Records.{RecordStatus, of_job, RunStatus, Test, Run, Summary}
use rules_verilog.Results.Final.{
  has_status, is_interrupted, count_if, passed_tests, failed_tests, interrupted_tests, planned,
  summarize, final_status, finalize_run, tested_status, untested_status, is_empty,
}
use rules_verilog.Results.Store.{is_failed_history_run, is_failed_status}

-- The tests whose status is none of the three that the summary counts.
abbrev pub other_tests : List Test → ℕ
other_tests tests =
    count_if
      (λ t. not (
        has_status JobStatus.passed t.status
        || has_status JobStatus.failed t.status
        || is_interrupted t.status))
      tests

tests_add :
    (tests : List Test)
    → passed_tests tests + failed_tests tests + interrupted_tests tests + other_tests tests
      ≡ length tests
tests_add [] = omega arith
tests_add (t ∷ tests) = split t.status (tests_add tests)
  where
    split :
        (s : RecordStatus)
        → passed_tests tests + failed_tests tests + interrupted_tests tests + other_tests tests
          ≡ length tests
        → (if has_status JobStatus.passed s then suc (passed_tests tests) else passed_tests tests)
            + (if has_status JobStatus.failed s
                then suc (failed_tests tests)
                else failed_tests tests)
            + (if is_interrupted s then suc (interrupted_tests tests) else interrupted_tests tests)
            + (if not (
                  has_status JobStatus.passed s
                  || has_status JobStatus.failed s
                  || is_interrupted s)
                then suc (other_tests tests)
                else other_tests tests)
          ≡ suc (length tests)
    split RecordStatus.interrupted h = omega arith
    split (of_job JobStatus.passed) h = omega arith
    split (of_job JobStatus.failed) h = omega arith
    split (of_job JobStatus.not_started) h = omega arith
    split (of_job JobStatus.to_be_bypassed) h = omega arith
    split (of_job JobStatus.skipped) h = omega arith
    split (of_job JobStatus.bypassed) h = omega arith

-- The four counts of the summary, and the tests of any other status, add up to the planned tests,
-- or to the recorded ones where more were recorded than planned.
pub finalize_run-counts :
    (at : String) (log : Option String) (bad : Bool) (run : Run)
    → let s = (finalize_run at log bad run).summary in
      s.passed + s.failed + s.interrupted + s.skipped + other_tests run.tests
      ≡ max s.total (length run.tests)
unfolding finalize_run
finalize_run-counts at log bad run = omega (arith, tests_add run.tests)

decide_passed :
    (bad untested : Bool) (u : RunStatus) (s : Summary)
    → u ≢ RunStatus.passed
    → ((if bad then RunStatus.failed else if untested then u else tested_status s)
        ≡ RunStatus.passed)
      ↔ (bad ≡ false) × (untested ≡ false) × (s.failed ≡ 0) × (s.interrupted ≡ 0) × (s.skipped ≡ 0)
decide_passed bad untested u s n = (λ h. ground arith, λ h. ground arith)

untested-ne-passed : (run : Run) → untested_status run ≢ RunStatus.passed
untested-ne-passed run h = ground arith

is_empty_iff : (tests : List Test) → (is_empty tests ≡ false) ↔ (tests ≢ [])
is_empty_iff [] = (λ h e. cc, λ h. absurd (h refl))
is_empty_iff (t ∷ ts) = (λ h e. cc, λ h. refl)

-- A run is reported as passed exactly if the backend finished, a test was recorded, none failed or
-- was interrupted, and as many were recorded as planned.
pub finalize_run-passed :
    (at : String) (log : Option String) (bad : Bool) (run : Run)
    → ((finalize_run at log bad run).status ≡ RunStatus.passed)
      ↔ (bad ≡ false)
        × (run.tests ≢ [])
        × (failed_tests run.tests ≡ 0)
        × (interrupted_tests run.tests ≡ 0)
        × (planned run ≤ length run.tests)
unfolding finalize_run final_status
finalize_run-passed at log bad run =
    let d =
      decide_passed bad (is_empty run.tests) (untested_status run) (summarize run)
        (untested-ne-passed run) in
    let e = is_empty_iff run.tests in
    (
      λ h. let r = d.0 h in (r.0, e.0 r.1, r.2, r.3, omega (arith, r.4)),
      λ h. d.1 (h.0, e.1 h.1, h.2, h.3, omega (arith, h.4)),
    )

decide_failed :
    (bad untested : Bool) (u : RunStatus) (s : Summary)
    → is_failed_status (if bad then RunStatus.failed else if untested then u else tested_status s)
        || ltb 0 s.failed
      ≡ (bad || (if untested then is_failed_status u || ltb 0 s.failed else ltb 0 s.failed))
decide_failed bad untested u s = ground arith

-- In the history a finished run counts as failed exactly if the backend failed, or a test failed,
-- or no test was recorded and a compile or a launch failed.
pub is_failed_history_run-finalize_run :
    (at : String) (log : Option String) (bad : Bool) (run : Run)
    → is_failed_history_run (finalize_run at log bad run) ≡ (
        bad
        || ltb 0 (failed_tests run.tests)
        || is_empty run.tests
          && (any (λ c. has_status JobStatus.failed c.status) run.compile
              || ltb 0 run.launch_failures))
unfolding finalize_run final_status is_failed_history_run
is_failed_history_run-finalize_run at log bad run = split run.tests
  where
    split :
        (tests : List Test)
        → is_failed_status (
              if bad
              then RunStatus.failed
              else if is_empty tests
              then untested_status run
              else tested_status (summarize (record run { tests = tests })))
            || ltb 0 (failed_tests tests)
          ≡ (bad
              || ltb 0 (failed_tests tests)
              || is_empty tests
                && (any (λ c. has_status JobStatus.failed c.status) run.compile
                    || ltb 0 run.launch_failures))
    split [] = ground arith
    split (t ∷ ts) = ground arith
