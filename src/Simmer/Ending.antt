-- ===== src/Simmer/Ending.antt =====
-- bin/simmer.py: the end of main after the jobs, _SharedRuntimeCleanup, finalize_interrupted_run and
-- persist_simmer_results.
pub mod Success
pub mod Once
mod Examples
use rules_verilog.Base.{
  ℕ, zero, suc, ◌+◌, Bool, true, false, not, ◌||◌, String, Option, none, some, List, [], ◌∷◌,
  if◌then◌else◌,
}
use rules_verilog.Results.Records.{
  RecordStatus, Test, Compile, Run, record_test_job, record_compile_job,
}
use rules_verilog.Results.Final.{finalize_run}
use rules_verilog.Results.Store.{History, save_run, should_save_run}

-- What a phase does: it returns, a KeyboardInterrupt comes, or it raises.
pub data PhaseAnswer {ℓ} (A : Type ℓ) : Type ℓ where
  gives : A → PhaseAnswer A
  interrupts raises : PhaseAnswer A

-- A job of `jm.interrupted_jobs`, with its record.
pub data Stopped : Type 0 where
  started_test : Test → Stopped
  compile_job : Compile → Stopped
  other_job : Stopped

pub record Phases : Type 0 where
  pub shutdown_incomplete : Bool  -- of the manager
  pub workflow : PhaseAnswer Bool  -- finalize_regression_workflow, whether it failed
  pub reports : PhaseAnswer Bool  -- print_summary to write_run_launcher, whether the coverage merge failed
  pub cleanup_answer : PhaseAnswer {0} Unit  -- cleanup_shared_runtime_artifacts
  pub has_logged : Bool  -- a warning or an error
  pub total_failures : ℕ
  pub saves : Bool  -- whether save_run can write
  pub finished_at : String
  pub regression_log : Option String
  pub max_runs : ℕ
  pub stopped : List Stopped

-- `_SharedRuntimeCleanup`, with a count of the calls of the backend, the run and the history.
pub record Session : Type 0 where
  pub attempted : Bool
  pub cleanups : ℕ
  pub run : Option Run
  pub history : History

abbrev pub clean_shared_runtime : Session → Session
clean_shared_runtime s =
    if s.attempted then s else record s { attempted = true; cleanups = s.cleanups + 1 }

abbrev pub mark_stopped : List Stopped → Run → Run
mark_stopped [] r = r
mark_stopped (started_test t ∷ js) r =
    mark_stopped js (
      record_test_job (record t { status = RecordStatus.interrupted; simulation_started = true }) r)
mark_stopped (compile_job c ∷ js) r =
    mark_stopped js (record_compile_job (record c { status = RecordStatus.interrupted }) r)
mark_stopped (other_job ∷ js) r = mark_stopped js r

-- Whether it succeeds; a failure exits only where it is fatal.
abbrev pub persist_simmer_results : Phases → Session → Bool × Session
persist_simmer_results p s = elim s.run [
  | none ↦ (true, s)
  | some r ↦
      if not (should_save_run r)
      then (true, s)
      else if p.saves
      then (true, record s { history = (save_run r p.max_runs s.history).1 })
      else (false, s)
]

-- `finalize_run` and `persist_simmer_results`, where there is a run.
abbrev pub finalize_record : Phases → Bool → Session → Bool × Session
finalize_record p bad s = elim s.run [
  | none ↦ (true, s)
  | some r ↦
      persist_simmer_results p
        (record s { run = some (finalize_run p.finished_at p.regression_log bad r) })
]

abbrev pub mark_run : Phases → Session → Session
mark_run p s = elim s.run [ none ↦ s | some r ↦ record s { run = some (mark_stopped p.stopped r) } ]

unfoldable pub finalize_interrupted_run : Phases → (may_clean : Bool) → Session → Session
unfolding finalize_run record_test_job record_compile_job save_run should_save_run
finalize_interrupted_run p may_clean s =
    (finalize_record p true (mark_run p (if may_clean then clean_shared_runtime s else s))).1

-- How far the try statement comes: to its end, to `exit_if_warnings_or_errors`, or what ends it.
pub data Reached : Type 0 where
  through exits interrupted raised : Reached

pub record Marks : Type 0 where
  pub workflow_failed : Bool
  pub coverage_failed : Bool
  pub is_complete : Bool

abbrev pub marks_of : Bool → Bool → Bool → Marks
marks_of w c done = record { workflow_failed = w; coverage_failed = c; is_complete = done }

-- After the cleanup. An incomplete shutdown has logged an error.
abbrev pub complete : Phases → Bool → Bool → Session → Reached × Marks × Session
complete p w c s =
    (if p.has_logged || p.shutdown_incomplete then exits else through, marks_of w c true, s)

abbrev pub after_reports : Phases → Bool → Bool → Session → Reached × Marks × Session
after_reports p w c s = if p.shutdown_incomplete then complete p w c s else elim p.cleanup_answer [
  | gives _ ↦ complete p w c (clean_shared_runtime s)
  | interrupts ↦ (interrupted, marks_of w c false, clean_shared_runtime s)
  | raises ↦ (raised, marks_of w c false, clean_shared_runtime s)
]

abbrev pub after_workflow : Phases → Bool → Session → Reached × Marks × Session
after_workflow p w s = elim p.reports [
  | gives c ↦ after_reports p w c s
  | interrupts ↦ (interrupted, marks_of w false false, s)
  | raises ↦ (raised, marks_of w false false, s)
]

abbrev pub post_process : Phases → Session → Reached × Marks × Session
post_process p s = elim (if p.shutdown_incomplete then gives true else p.workflow) [
  | gives w ↦ after_workflow p w s
  | interrupts ↦ (interrupted, marks_of false false false, s)
  | raises ↦ (raised, marks_of false false false, s)
]

-- The exit status, or an exception that leaves the program.
pub data Exit : Type 0 where
  status : ℕ → Exit
  uncaught : Exit

abbrev pub exit_of : Phases → Reached → Marks → Exit
exit_of p interrupted m = status 130
exit_of p raised m = uncaught
exit_of p exits m = status 1
exit_of p through m = elim p.total_failures [
  | zero ↦ if m.workflow_failed || m.coverage_failed then status 1 else status 0
  | suc _ ↦ status 1
]

abbrev pub is_bad : Phases → Marks → Bool
is_bad p m =
    m.workflow_failed
    || m.coverage_failed
    || not m.is_complete
    || p.has_logged
    || p.shutdown_incomplete

abbrev pub leave : Phases → Reached × Marks × Session → Exit × Session
leave p (interrupted, m, s) = (status 130, finalize_interrupted_run p (not p.shutdown_incomplete) s)
leave p (r, m, s) =
    let end = finalize_record p (is_bad p m) s in (if end.0 then exit_of p r m else status 1, end.1)

unfoldable pub finish_main : Phases → Session → Exit × Session
unfolding finalize_interrupted_run
finish_main p s = leave p (post_process p s)

-- What `kill` returns; `none` is a `kill` that raises.
abbrev pub shutdown_of : Option Bool → Bool
shutdown_of none = false
shutdown_of (some is_complete) = is_complete

-- A KeyboardInterrupt during the jobs.
unfoldable pub interrupt_main : Phases → (killed : Option Bool) → Session → Exit × Session
unfolding finalize_interrupted_run
interrupt_main p killed s = (status 130, finalize_interrupted_run p (shutdown_of killed) s)
