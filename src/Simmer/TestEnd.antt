-- ===== src/Simmer/TestEnd.antt =====
-- bin/simmer.py, TestJob.post_run: the status of a test, its error message and what is left of it.
pub mod Passing
mod Examples
use rules_verilog.Base.{
  ℕ, zero, Bool, true, false, not, ◌&&◌, String, Option, none, some, if◌then◌else◌,
}
use rules_verilog.Base.Int.{ℤ, pos}
use rules_verilog.Simmer.Compile.{is_zero}
use rules_verilog.Status.{
  JobStatus, passed, failed, moved, value_error, same_status, successful, update,
}

pub data ErrorMessage : Type 0 where
  no_error : ErrorMessage
  error_file : String → ErrorMessage
  no_error_file : Option ℤ → ErrorMessage
  no_log no_wave : ErrorMessage

-- What the hook meets. The directory of a test has its log, the .err file of the check of the log, and
-- the wave artifact where one is asked for.
pub record Simulated : Type 0 where
  pub returncode : Option ℤ
  pub log_exists : Bool
  pub error_text : Option String
  pub waves : Bool
  pub wave_exists : Bool
  pub tidy : Bool
  pub spawns : Bool  -- should_spawn_test_job
  pub begins : Bool  -- whether super().post_run() and the reading of the log's statistics return
  pub links : Bool  -- whether replace_symlink returns
  pub reads_errors : Bool  -- whether the .err file is read
  pub shows_wave : Bool  -- whether the script that shows the wave is written
  pub ends : Bool  -- whether the clean-up, the record of the test and the clone return

-- What the hook has done, `status` being the one that record_test_job gets.
pub record TestEnd : Type 0 where
  pub status : JobStatus
  pub error_message : ErrorMessage
  pub links_last_fail : Bool
  pub cleans_coverage : Bool
  pub removes_directory : Bool
  pub adds_clone : Bool

-- `self.jobstatus = new`; `none` is the ValueError of the setter.
abbrev pub assign_status : JobStatus → JobStatus → Option JobStatus
assign_status s new = elim (update s new) [ moved t ↦ some t | value_error _ _ ↦ none ]

abbrev pub then_status :
    Option JobStatus
    → (JobStatus → Option (JobStatus × ErrorMessage))
    → Option (JobStatus × ErrorMessage)
then_status none f = none
then_status (some s) f = f s

-- The branches on the return code.
abbrev pub judge_returncode : Simulated → JobStatus → Option (JobStatus × ErrorMessage)
judge_returncode m s =
    if not (is_zero m.returncode)
    then (if not m.links
        then none
        else then_status (assign_status s failed) (λ t. elim m.error_text [
          | some text ↦ if m.reads_errors then some (t, error_file text) else none
          | none ↦ some (t, no_error_file m.returncode)
        ]))
    else then_status (assign_status s passed) (λ t.
      if m.log_exists
      then some (t, no_error)
      else then_status (assign_status t failed) (λ u. some (u, no_log)))

abbrev pub judge_waves : Simulated → JobStatus × ErrorMessage → Option (JobStatus × ErrorMessage)
judge_waves m (s, message) =
    if not m.waves
    then some (s, message)
    else if m.wave_exists
    then (if m.shows_wave then some (s, message) else none)
    else if same_status s failed
    then some (s, message)
    else then_status (assign_status s failed) (λ t. some (t, no_wave))

abbrev pub end_test : Simulated → JobStatus × ErrorMessage → TestEnd
end_test m (s, message) = record {
  status = s;
  error_message = message;
  links_last_fail = not (is_zero m.returncode);
  cleans_coverage = same_status s failed;
  removes_directory = m.tidy && successful s;
  adds_clone = m.spawns;
}

-- `none` when the hook raises.
unfoldable pub post_run : Simulated → JobStatus → Option TestEnd
unfolding update
post_run m s = if not m.begins then none else elim (judge_returncode m s) [
  | none ↦ none
  | some first ↦ elim (judge_waves m first) [
    | none ↦ none
    | some last ↦ if m.ends then some (end_test m last) else none
  ]
]
