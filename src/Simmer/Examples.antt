-- ===== src/Simmer/Examples.antt =====
-- Runs of the decisions of the command line tool, on small inputs.
use rules_verilog.Base.{
  Bool, zero, suc, ap, arith, ◌<◌, ℕ, ◌≡◌, ◌≢◌, refl, true, false, ◌||◌, String, Option, none, some,
  List, [], ◌∷◌, if◌then◌else◌,
}
use text.Mathlib.TextLemmas.{length-append}
use Prim.Native.String.{count, ◌++◌ as ◌^◌}
use rules_verilog.Simmer.RunDirectories.{directory_name, claim_run_directory}
use rules_verilog.Simmer.RunDirectories.Free.{claim_run_directory_ends}
use rules_verilog.Base.Int.{pos}
use rules_verilog.Results.Text.{has, str_eq}
use rules_verilog.Cpus.{Texts, Environment, detect_allocated_cpus}
use rules_verilog.Simmer.Interrupts.{
  continue_run, waiting, pause, resume, show_status, prompt_interrupt_action, is_paused, ends,
  raised, wait_for_jobs,
}
use rules_verilog.Simmer.Interrupts.Resumed.{prompt_interrupt_action-is_paused}
use rules_verilog.Simmer.Simulators.{mixed, conflict, resolve_run_simulator}
use rules_verilog.Simmer.Simulators.Agreed.{all_use, is_mixed, resolve_run_simulator-all_use}
use rules_verilog.Simmer.Limits.{get_active_job_limit}

-- A wrong answer, a pause, the status, and Enter.
abbrev answers : List (Option String)
answers = some "x" ∷ some "p" ∷ some "i" ∷ some "" ∷ []

paused_and_resumed :
    prompt_interrupt_action true answers
    ≡ (continue_run, pause ∷ show_status ∷ show_status ∷ resume ∷ [])
unfolding prompt_interrupt_action
paused_and_resumed = refl

stopped_second_time : wait_for_jobs true (some answers ∷ some (none ∷ []) ∷ none ∷ []) ≡ raised
unfolding wait_for_jobs
stopped_second_time = refl

prompt_interrupt_action-is_paused_example :
    let result = prompt_interrupt_action true answers in
    (result.0 ≡ continue_run → is_paused false result.1 ≡ false)
    × (ends answers ≡ true → result.0 ≢ waiting)
prompt_interrupt_action-is_paused_example = prompt_interrupt_action-is_paused true answers

abbrev same_case : String → String
same_case s = s

abbrev simulators : String → Option String
simulators t = if str_eq t "v" || str_eq t "w" then some "VCS" else none

two_groups :
    resolve_run_simulator same_case simulators ("v" ∷ "x" ∷ "w" ∷ []) "XRUN" false
    ≡ mixed (("VCS", "v" ∷ "w" ∷ []) ∷ ("XRUN", "x" ∷ []) ∷ [])
unfolding resolve_run_simulator
two_groups = refl

resolve_run_simulator-all_use_example :
    let result = resolve_run_simulator same_case simulators ("v" ∷ "w" ∷ []) "XRUN" true in
    (all_use same_case simulators "VCS" ("w" ∷ []) ≡ true → result ≡ conflict "XRUN" "VCS")
    × (all_use same_case simulators "VCS" ("w" ∷ []) ≡ false
        → is_mixed same_case simulators result ≡ true)
resolve_run_simulator-all_use_example =
    resolve_run_simulator-all_use same_case simulators "v" ("w" ∷ []) "XRUN" true

abbrev texts : Texts
texts = record {
  int = λ s. if str_eq s "8" then some (pos 8) else none;
  lower = λ s. s;
  short = λ s. s;
}

abbrev environment : Environment
environment = record {
  lsb_mcpu_hosts = "node" ∷ "8" ∷ [];
  lsb_hosts = [];
  slurm_cpus_per_task = none;
  lsb_djob_numproc = none;
  hostname = "node";
  affinity = none;
  host_cpu_count = some 64;
}

-- Eight CPUs, three threads for each of the seven tests.
two_at_once : get_active_job_limit texts (4 ∷ 3 ∷ []) false none environment 3 ≡ 2
unfolding get_active_job_limit detect_allocated_cpus
two_at_once = refl

-- Numbers as strokes.
abbrev strokes : ℕ → String
strokes zero = ""
strokes (suc n) = "|" ^ strokes n

count-strokes : (n : ℕ) → count (strokes n) ≡ n
count-strokes zero = refl
count-strokes (suc n) = omega (arith, length-append "|" (strokes n), count-strokes n)

strokes_inj : (m n : ℕ) → strokes m ≡ strokes n → m ≡ n
strokes_inj m n e = omega (arith, ap count e, count-strokes m, count-strokes n)

-- Another run and an earlier one of this process use the first two directories.
abbrev in_use : List String
in_use = "t" ∷ "t__run_p|" ∷ []

abbrev can_lock : String → Bool
can_lock p = if str_eq p "t" || str_eq p "t__run_p|" then false else true

third : claim_run_directory strokes 9 can_lock 1 "t" ≡ some (2, "t__run_p|_||")
unfolding claim_run_directory
third = refl

can_lock_known : (p : String) → can_lock p ≡ false → has p in_use ≡ true
can_lock_known p h = ground arith

claim_run_directory_ends_example :
    (k : ℕ) × (claim_run_directory strokes 3 can_lock 1 "t"
      ≡ some (k, directory_name strokes 1 "t" k))
    × (can_lock (directory_name strokes 1 "t" k) ≡ true)
    × ((j : ℕ) → j < k → can_lock (directory_name strokes 1 "t" j) ≡ false)
claim_run_directory_ends_example =
    claim_run_directory_ends strokes strokes_inj 1 "t" can_lock in_use can_lock_known 3
      (omega arith)
