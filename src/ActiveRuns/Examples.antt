-- ===== src/ActiveRuns/Examples.antt =====
-- Runs of the registration and of the report, on small inputs.
use Prim.Native.String.{◌++◌ as ◌^◌}
use rules_verilog.Base.{
  ℕ, ◌≡◌, refl, true, false, String, Option, none, some, List, [], ◌∷◌, map, ◌==◌, if◌then◌else◌,
}
use mathlib.Core.List.{Perm}
use rules_verilog.ActiveRuns.State.{
  State, Environment, capture_lsf_context, format_submission_command, ActiveRun,
}
use rules_verilog.ActiveRuns.Loading.{Entry, Machine, place, load_state_files, load_active_runs}
use rules_verilog.ActiveRuns.Loading.Live.{live, dead, asked_jobs, told}
use rules_verilog.ActiveRuns.Loading.Shown.{load_active_runs-Perm}
use rules_verilog.Results.Text.{str_eq}
use rules_verilog.ActiveRuns.Format.{Printer, format_heading}

abbrev a_run : String → ℕ → String → ℕ → Option String → State
a_run id epoch host pid job = record {
  run_id = some id;
  started_at = some "noon";
  started_at_epoch = some epoch;
  command = some "simmer";
  status = some "RUNNING";
  planned_tests = 2;
  finished_tests = 1;
  active_tests = 1;
  queued_tests = 0;
  compile_logs = [];
  result_log = none;
  regression_log = some "r.log";
  lsf = some (record {
    job_id = job;
    job_index = none;
    display_job_id = job;
    queue = none;
    host = host;
    submit_host = none;
    interactive = false;
  });
  process = record { pid = some pid; host = some host; start_time = none };
}

abbrev entry : String → State → Entry
entry path s = record { path = path; is_file = true; is_json = true; content = some s }

-- Process 7 is the only one on the host, and LSF knows two jobs.
abbrev machine : Machine
machine = record {
  hostname = "a";
  process_exists = λ pid. pid == 7;
  process_start_time = λ pid. none;
  bjobs = λ ids. some (record {
    failed = true;
    lines = ("1" ∷ "u" ∷ "RUN" ∷ []) ∷ ("2" ∷ "u" ∷ "DONE" ∷ "q" ∷ []) ∷ ("bad" ∷ []) ∷ [];
  });
  upper = λ s. s;
}

-- One run that is alive here, one that died, and three on another host: running, done, without a job.
abbrev entries : List Entry
entries =
    entry "p5" (a_run "e" 50 "a" 7 none)
    ∷ entry "p4" (a_run "d" 40 "a" 8 none)
    ∷ entry "p3" (a_run "c" 30 "b" 8 (some "1"))
    ∷ entry "p2" (a_run "b" 20 "b" 8 (some "2"))
    ∷ entry "p1" (a_run "a" 10 "b" 8 none)
    ∷ []

reported : load_active_runs machine entries ≡ (
  a_run "a" 10 "b" 8 none ∷ a_run "c" 30 "b" 8 (some "1") ∷ a_run "e" 50 "a" 7 none ∷ [],
  "p4" ∷ "p2" ∷ [],
)
unfolding load_active_runs
reported = refl

load_active_runs-Perm_example :
    let keeps = told machine ("1" ∷ "2" ∷ []) in
    Perm
      (load_active_runs machine entries).0
      (map (λ c. c.1) (live machine keeps (load_state_files entries)))
    × Perm (load_active_runs machine entries).1 (dead machine keeps (load_state_files entries))
unfolding asked_jobs place
load_active_runs-Perm_example = load_active_runs-Perm machine entries

-- A run whose file cannot be written: the state changes, and a repeated update changes nothing.
abbrev active_run : ActiveRun str_eq "None"
active_run = record {
  enabled = true;
  state = ("status", "DISCOVERING") ∷ ("updated_at", "0") ∷ [];
  written = none;
  warnings = 0;
}

abbrev no_environment : Environment
no_environment = record {
  lsb_jobid = some "77";
  lsb_jobindex = some "3";
  lsb_queue = some "short";
  lsb_sub_host = none;
  simmer_submit_cmd = none;
}

submitted :
    format_submission_command
      (λ s. s)
      (λ s. s)
      (λ s. s)
      ("simmer" ∷ "-t" ∷ [])
      (capture_lsf_context (λ s. s) no_environment "h" true)
      no_environment
    ≡ "bsub -I -q short simmer -t"
unfolding format_submission_command capture_lsf_context
submitted = refl

abbrev printer : Printer
printer = record {
  digits = λ n. if n == 1 then "1" else "2";
  two_digits = λ n. if n == 1 then "01" else "00";
  column = λ s. s ^ " ";
  quote = λ s. s;
}

headed :
    format_heading printer 1 (a_run "a" 10 "a" 7 none) 3671
    ≡ "[1] noon  RUNNING  1/2 finished, 1 active, 2 queued | elapsed 01:01:01"
unfolding format_heading
headed = refl
