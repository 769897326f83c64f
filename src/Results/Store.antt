-- ===== src/Results/Store.antt =====
-- lib/simmer_results.py, _merge_stores, should_save_run, save_run and _filter_history_runs: the
-- history of the runs. Reading and writing the file under its lock is left out: a store is the
-- list of its runs, whose last one is `last_run`.
use rules_verilog.Base.{
  ℕ, zero, suc, ◌-◌, Bool, true, false, not, ◌&&◌, ◌||◌, String, Option, none, some, List, [], ◌∷◌,
  ◌++◌, length, drop, ltb, any, if◌then◌else◌,
}
use rules_verilog.Results.Text.{str_eq, str_lt, truthy, text_or, or_text, same_text}
use rules_verilog.Results.Records.{RunStatus, Test, Run, upsert}
use rules_verilog.Results.Final.{
  is_interrupted, filter_if, planned, first_failed, head_test, collect_benches,
}

abbrev pub max_runs_default : ℕ
max_runs_default = 100

pub record History : Type 0 where
  pub last_run : Option Run
  pub runs : List Run

-- The slice `runs[-n:]`; at 0 it is the whole list.
abbrev pub last_slice {ℓ} : {A : Type ℓ} → ℕ → List A → List A
last_slice zero runs = runs
last_slice (suc n) runs = drop (length runs - suc n) runs

abbrev pub last_of {ℓ} : {A : Type ℓ} → List A → Option A
last_of [] = none
last_of (x ∷ []) = some x
last_of (x ∷ (y ∷ ys)) = last_of (y ∷ ys)

-- `run_id and run_id in run_positions`: the position of a run identifier is that of its run.
abbrev pub same_run : Run → Run → Bool
same_run a b = truthy a.run_id && same_text a.run_id b.run_id

abbrev pub merge_runs : List Run → List Run → List Run
merge_runs merged [] = merged
merge_runs merged (run ∷ runs) = merge_runs (upsert same_run run merged) runs

-- The sort by time, in which the position breaks ties.
abbrev pub time_key : Run → String
time_key run = text_or (or_text run.finished_at run.started_at) ""

abbrev pub insert_by_time : Run → List Run → List Run
insert_by_time run [] = run ∷ []
insert_by_time run (r ∷ rs) =
    if str_lt (time_key r) (time_key run) then r ∷ insert_by_time run rs else run ∷ (r ∷ rs)

abbrev pub sort_by_time : List Run → List Run
sort_by_time [] = []
sort_by_time (r ∷ rs) = insert_by_time r (sort_by_time rs)

unfoldable pub merge_stores : (legacy current : List Run) → (max_runs : ℕ) → History
unfolding upsert str_lt
merge_stores legacy current max_runs =
    let runs = last_slice max_runs (sort_by_time (merge_runs [] (legacy ++ current))) in
    record { last_run = last_of runs; runs = runs }

unfoldable pub should_save_run : Run → Bool
should_save_run run = any (λ t. t.simulation_started) run.tests

abbrev pub first_interrupted : List Test → Option Test
first_interrupted [] = none
first_interrupted (t ∷ ts) = if is_interrupted t.status then some t else first_interrupted ts

abbrev pub or_else {ℓ} : {A : Type ℓ} → Option A → Option A → Option A
or_else none b = b
or_else (some a) b = some a

abbrev pub to_list {ℓ} : {A : Type ℓ} → Option A → List A
to_list none = []
to_list (some a) = a ∷ []

-- Of several tests, the first that failed is stored, else the first that was interrupted, else the
-- first.
unfoldable pub stored_run : Run → Run
stored_run run =
    if ltb 1 (planned run) && ltb 1 (length run.tests)
    then record run {
      tests = to_list (
          or_else (first_failed run.tests)
            (or_else (first_interrupted run.tests) (head_test run.tests)));
    }
    else run

abbrev pub has_id : Option String → Run → Bool
has_id id run = same_text run.run_id id

unfoldable pub save_run : Run → (max_runs : ℕ) → History → Bool × History
unfolding should_save_run stored_run
save_run run max_runs store =
    if should_save_run run
    then (
      true,
      record {
        last_run = some (stored_run run);
        runs =
            last_slice max_runs
              (filter_if (λ r. not (has_id run.run_id r)) store.runs ++ (stored_run run ∷ []));
      },
    )
    else (false, store)

abbrev pub is_failed_status : RunStatus → Bool
is_failed_status RunStatus.failed = true
is_failed_status RunStatus.compile_failed = true
is_failed_status _ = false

unfoldable pub is_failed_history_run : Run → Bool
is_failed_history_run run = is_failed_status run.status || ltb 0 run.summary.failed

abbrev pub has_text : String → List String → Bool
has_text b [] = false
has_text b (c ∷ cs) = str_eq b c || has_text b cs

abbrev pub bench_fits : Option String → Run → Bool
bench_fits none run = true
bench_fits (some b) run = has_text b (collect_benches run)

unfoldable pub filter_history_runs : Option String → Bool → List Run → List Run
unfolding collect_benches is_failed_history_run
filter_history_runs bench failed_only =
    filter_if (λ run. bench_fits bench run && (not failed_only || is_failed_history_run run))
