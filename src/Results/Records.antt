-- ===== src/Results/Records.antt =====
-- lib/simmer_results.py, create_run, record_compile_job, record_test_job and _upsert_by_key.
use rules_verilog.Base.{
  ℕ, Bool, true, false, ◌&&◌, String, Option, none, some, List, [], ◌∷◌, ◌==◌, if◌then◌else◌,
}
use rules_verilog.Status.{JobStatus}
use rules_verilog.Timing.{Interval}
use rules_verilog.Results.Text.{same_text}

-- `status or job.jobstatus.name`, where the caller passes no other word than INTERRUPTED.
pub data RecordStatus : Type 0 where
  interrupted : RecordStatus
  of_job : JobStatus → RecordStatus

pub data RunStatus : Type 0 where
  running failed interrupted partial passed compile_failed no_sim_run : RunStatus

pub record Compile : Type 0 where
  pub bench : Option String
  pub vcomp_target : Option String
  pub status : RecordStatus
  pub cmp_log : Option String
  pub cache_hit : Bool
  pub interval : Option Interval

pub record Test : Type 0 where
  pub bench : Option String
  pub target : Option String
  pub iteration : Option ℕ
  pub seed : Option ℕ
  pub status : RecordStatus
  pub simulation_started : Bool
  pub cmp_log : Option String
  pub stdout_log : Option String
  pub waves_enabled : Bool
  pub run_script : Option String
  pub interval : Option Interval

pub record Summary : Type 0 where
  pub passed : ℕ
  pub failed : ℕ
  pub interrupted : ℕ
  pub skipped : ℕ
  pub total : ℕ

pub record Timing : Type 0 where
  pub compile_elapsed : Option ℕ
  pub simulate_elapsed : Option ℕ
  pub compile_reused : Bool

pub record Run : Type 0 where
  pub run_id : Option String
  pub started_at : Option String
  pub finished_at : Option String
  pub planned_tests : Option ℕ
  pub status : RunStatus
  pub regression_log : Option String
  pub summary : Summary
  pub compile : List Compile
  pub tests : List Test
  pub benches : List String
  pub launch_failures : ℕ
  pub timing : Timing

unfoldable pub create_run :
    (run_id started_at : String) → (planned_tests : ℕ) → (no_compile : Bool) → Run
create_run run_id started_at planned_tests no_compile = record {
  run_id = some run_id;
  started_at = some started_at;
  finished_at = none;
  planned_tests = some planned_tests;
  status = running;
  regression_log = none;
  summary = record { passed = 0; failed = 0; interrupted = 0; skipped = 0; total = planned_tests };
  compile = [];
  tests = [];
  benches = [];
  launch_failures = 0;
  timing = record { compile_elapsed = none; simulate_elapsed = none; compile_reused = no_compile };
}

-- The loop of `_upsert_by_key`, and that of `record_test_job`, for a test of equal keys: the first
-- item with the same key is replaced, else the value is appended.
module _ {ℓ} {A : Type ℓ} (same : A → A → Bool) where
  unfoldable pub upsert : A → List A → List A
  upsert value [] = value ∷ []
  upsert value (item ∷ items) = if same item value then value ∷ items else item ∷ upsert value items

abbrev pub same_number : Option ℕ → Option ℕ → Bool
same_number none none = true
same_number (some a) (some b) = a == b
same_number _ _ = false

abbrev pub same_vcomp : Compile → Compile → Bool
same_vcomp a b = same_text a.vcomp_target b.vcomp_target

-- `all(... for key in ("target", "iteration", "seed"))`.
abbrev pub same_test : Test → Test → Bool
same_test a b =
    same_text a.target b.target && same_number a.iteration b.iteration && same_number a.seed b.seed

unfoldable pub record_compile_job : Compile → Run → Run
unfolding upsert
record_compile_job c run = record run { compile = upsert same_vcomp c run.compile }

unfoldable pub record_test_job : Test → Run → Run
unfolding upsert
record_test_job t run = record run { tests = upsert same_test t run.tests }
