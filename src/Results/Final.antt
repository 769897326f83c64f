-- ===== src/Results/Final.antt =====
-- lib/simmer_results.py, finalize_run with _finalize_timing and _collect_benches, and the selectors
-- that format_history applies to a run.
use rules_verilog.Base.{
  ℕ, zero, suc, ◌-◌, Bool, true, false, not, ◌&&◌, ◌||◌, String, Option, none, some, List, [], ◌∷◌,
  ◌++◌, map, length, ltb, any, all, ◌==◌, if◌then◌else◌,
}
use Prim.Native.Nat.{Ordering}
use Prim.Native.String.{compare}
use rules_verilog.Status.{JobStatus, same_status}
use rules_verilog.Timing.{consume_elapsed_time}
use rules_verilog.Results.Text.{str_eq, truthy, text_or}
use rules_verilog.Results.Records.{
  RecordStatus, of_job, RunStatus, Compile, Test, Summary, Timing, Run,
}

abbrev pub has_status : JobStatus → RecordStatus → Bool
has_status s (of_job t) = same_status s t
has_status s RecordStatus.interrupted = false

abbrev pub is_interrupted : RecordStatus → Bool
is_interrupted RecordStatus.interrupted = true
is_interrupted (of_job _) = false

-- `sum(1 for test in tests if ...)`.
abbrev pub count_if {ℓ} : {A : Type ℓ} → (A → Bool) → List A → ℕ
count_if test [] = 0
count_if test (x ∷ xs) = if test x then suc (count_if test xs) else count_if test xs

abbrev pub filter_if {ℓ} : {A : Type ℓ} → (A → Bool) → List A → List A
filter_if test [] = []
filter_if test (x ∷ xs) = if test x then x ∷ filter_if test xs else filter_if test xs

-- `int(run.get("planned_tests") or len(tests))`.
abbrev pub planned_or : Option ℕ → ℕ → ℕ
planned_or none n = n
planned_or (some zero) n = n
planned_or (some (suc k)) n = suc k

abbrev pub planned : Run → ℕ
planned run = planned_or run.planned_tests (length run.tests)

abbrev pub passed_tests : List Test → ℕ
passed_tests tests = count_if (λ t. has_status JobStatus.passed t.status) tests

abbrev pub failed_tests : List Test → ℕ
failed_tests tests = count_if (λ t. has_status JobStatus.failed t.status) tests

abbrev pub interrupted_tests : List Test → ℕ
interrupted_tests tests = count_if (λ t. is_interrupted t.status) tests

abbrev pub summarize : Run → Summary
summarize run = record {
  passed = passed_tests run.tests;
  failed = failed_tests run.tests;
  interrupted = interrupted_tests run.tests;
  skipped = planned run - length run.tests;
  total = planned run;
}

-- The new value of a timing field: what the records say, else what it was before.
abbrev pub or_before : Option ℕ → Option ℕ → Option ℕ
or_before none before = before
or_before (some n) before = some n

abbrev pub is_empty {ℓ} : {A : Type ℓ} → List A → Bool
is_empty [] = true
is_empty (_ ∷ _) = false

unfoldable pub finalize_timing : Run → Timing
unfolding consume_elapsed_time
finalize_timing run = record {
  compile_elapsed =
      or_before (consume_elapsed_time (map (λ c. c.interval) run.compile))
        run.timing.compile_elapsed;
  simulate_elapsed =
      or_before
        (consume_elapsed_time
          (map (λ t. t.interval) (filter_if (λ t. t.simulation_started) run.tests)))
        run.timing.simulate_elapsed;
  compile_reused =
      run.timing.compile_reused || not (is_empty run.compile) && all (λ c. c.cache_hit) run.compile;
}

-- `_elapsed_interval_s` is popped from every record that was read.
abbrev pub drop_compile_interval : Compile → Compile
drop_compile_interval c = record c { interval = none }

abbrev pub drop_test_interval : Test → Test
drop_test_interval t = record t { interval = none }

-- A set of texts in ascending order, and the benches of the records that have one.
unfoldable pub add_bench : String → List String → List String
add_bench b [] = b ∷ []
add_bench b (c ∷ cs) = elim (compare b c) [
  | Ordering.lt ↦ b ∷ (c ∷ cs)
  | Ordering.eq ↦ c ∷ cs
  | Ordering.gt ↦ c ∷ add_bench b cs
]

abbrev pub add_optional : Option String → List String → List String
add_optional none cs = cs
add_optional (some b) cs = if str_eq b "" then cs else add_bench b cs

abbrev pub add_all : List String → List String → List String
add_all [] cs = cs
add_all (b ∷ bs) cs = add_bench b (add_all bs cs)

abbrev pub add_optionals : List (Option String) → List String → List String
add_optionals [] cs = cs
add_optionals (b ∷ bs) cs = add_optional b (add_optionals bs cs)

unfoldable pub collect_benches : Run → List String
unfolding add_bench
collect_benches run =
    add_optionals (map (λ c. c.bench) run.compile ++ map (λ t. t.bench) run.tests)
      (add_all run.benches [])

-- The status of a run whose tests have records.
abbrev pub tested_status : Summary → RunStatus
tested_status s =
    if ltb 0 s.failed
    then RunStatus.failed
    else if ltb 0 s.interrupted
    then RunStatus.interrupted
    else if ltb 0 s.skipped
    then RunStatus.partial
    else RunStatus.passed

-- ... and of one that has none.
abbrev pub untested_status : Run → RunStatus
untested_status run =
    if any (λ c. has_status JobStatus.failed c.status) run.compile
    then RunStatus.compile_failed
    else if ltb 0 run.launch_failures
    then RunStatus.failed
    else RunStatus.no_sim_run

unfoldable pub final_status : Bool → Run → RunStatus
final_status backend_finalize_failed run =
    if backend_finalize_failed
    then RunStatus.failed
    else if is_empty run.tests
    then untested_status run
    else tested_status (summarize run)

unfoldable pub finalize_run : (finished_at : String) → Option String → Bool → Run → Run
unfolding finalize_timing collect_benches final_status
finalize_run finished_at regression_log backend_finalize_failed run = record run {
  finished_at = some finished_at;
  regression_log = regression_log;
  summary = summarize run;
  timing = finalize_timing run;
  compile = map drop_compile_interval run.compile;
  tests = map drop_test_interval run.tests;
  benches = collect_benches run;
  status = final_status backend_finalize_failed run;
}

-- `_select_compile_log`, `_select_result_log` and `_select_waves_script`.
abbrev pub first_failed : List Test → Option Test
first_failed [] = none
first_failed (t ∷ ts) = if has_status JobStatus.failed t.status then some t else first_failed ts

abbrev pub log_of : Option Test → Option String
log_of none = none
log_of (some t) = t.cmp_log

abbrev pub head_test : List Test → Option Test
head_test [] = none
head_test (t ∷ _) = some t

abbrev pub compile_log : List Compile → String
compile_log [] = "-"
compile_log (c ∷ _) = text_or c.cmp_log "-"

unfoldable pub select_compile_log : Run → String
select_compile_log run =
    let failed_log = log_of (first_failed run.tests) in
    let test_log = log_of (head_test run.tests) in
    if truthy failed_log
    then text_or failed_log "-"
    else if truthy test_log
    then text_or test_log "-"
    else compile_log run.compile

unfoldable pub select_result_log : Run → String
select_result_log run = elim (head_test run.tests) [
  | none ↦ "-"
  | some t ↦
      if ltb 1 (planned run) then text_or run.regression_log "-" else text_or t.stdout_log "-"
]

unfoldable pub select_waves_script : Run → Option String
select_waves_script run = elim (head_test run.tests) [
  | none ↦ none
  | some t ↦ if planned run == 1 then (if t.waves_enabled then t.run_script else some "-") else none
]
