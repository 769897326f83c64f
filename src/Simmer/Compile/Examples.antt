-- ===== src/Simmer/Compile/Examples.antt =====
-- Runs of compile jobs on one directory.
use rules_verilog.Base.{
  ◌≡◌, refl, Bool, true, false, ◌+◌, ◌<◌, arith, String, none, some, List, [], ◌∷◌, ◌↔◌, ◌⊎◌, ◌&&◌,
  ◌||◌, if◌then◌else◌,
}
use rules_verilog.Base.Int.{pos}
use rules_verilog.Results.Text.{str_eq, str_lt}
use rules_verilog.Status.{not_started, passed, failed}
use rules_verilog.CompileCache.Json.{Fields, atom, object, end, field, same, changed_fields}
use rules_verilog.CompileCache.Json.Levels.{levels}
use rules_verilog.CompileCache.Json.Changed.{Agree}
use rules_verilog.CompileCache.Fingerprint.{mismatch, missing, holds}
use rules_verilog.Simmer.Compile.{
  Warnings, Post, returned, ended_status, Job, Directory, bypassed_run, compiled, refused,
  last_compile, run_job, post_run,
}
use rules_verilog.Simmer.Compile.Reuse.{new, next, Reusable, bypassed-last_compile, run_job_ends}
use rules_verilog.Simmer.Compile.Waived.{JudgesPassed, Returns, StoresFingerprint, post_run-passed}

abbrev home : String → Fields
home vcs =
    field "script" (atom "s") (field "environment" (object (field "VCS_HOME" (atom vcs) end)) end)

-- A warning starts with its code, and no line is blank.
abbrev log_rules : Warnings
log_rules = record {
  is_warning = λ line. str_eq line "Warning-[X]";
  strip = λ line. line;
  search = λ waiver line. str_eq waiver line;
  is_ignored = λ n. false;
}

abbrev end_with : Bool → List String → Post
end_with zero waivers = record {
  parses = true;
  returncode = if zero then some (pos 0) else some (pos 1);
  waivers_exist = true;
  log_exists = true;
  waivers = some waivers;
  log = some ("Parsing" ∷ "Warning-[X]" ∷ []);
  base_raises = false;
  records = returned;
  writes = returned;
  ends = true;
}

abbrev compile_of : Bool → String → Post → Job
compile_of no_compile vcs p = record {
  request = record {
    recompile = false;
    no_compile = no_compile;
    auto_reuse = true;
    expected = home vcs;
    artifacts = none;
  };
  status = not_started;
  warnings = log_rules;
  post = some p;
}

abbrev empty : Directory
empty = record { stored = missing; compiles = [] }

abbrev waived : Post
waived = end_with true ("Warning-[X]" ∷ [])

abbrev compiled_once : Directory
compiled_once = (run_job 3 empty (compile_of false "a" waived)).0

-- A second job with the same fingerprint does not compile.
reused : (run_job 3 compiled_once (compile_of false "a" waived)).1 ≡ bypassed_run
unfolding run_job
reused = refl

-- After a compile with an unwaived warning nothing can be used again.
not_reused :
    (run_job 3
      (run_job 3 empty (compile_of false "a" (end_with true []))).0
      (compile_of false "a" waived)).1
    ≡ compiled
unfolding run_job
not_reused = refl

-- With --no-compile another environment is refused, and named.
refused_for_home :
    (run_job 3 compiled_once (compile_of true "b" waived)).1
    ≡ refused (mismatch ("environment.VCS_HOME" ∷ []))
unfolding run_job str_lt
refused_for_home = refl

bypassed-last_compile_example :
    (g : Fields) × (last_compile compiled_once ≡ some (g, true))
    × Reusable g (compile_of false "a" waived).request
bypassed-last_compile_example =
    bypassed-last_compile (compile_of false "a" waived)
      (next (compile_of false "a" waived) (new refl)) reused

stored_once : compiled_once.stored ≡ holds (home "a")
unfolding run_job
stored_once = refl

levels_of_home : levels (home "a") < 3
unfolding levels
levels_of_home = omega arith

run_job_ends_example :
    let j = compile_of true "b" waived in
    (((run_job 3 compiled_once j).1 ≡ bypassed_run)
      ↔ (same (object (home "a")) (object (home "b")) ≡ true) × (true || true ≡ true))
    × (((run_job 3 compiled_once j).1
          ≡ refused (mismatch (changed_fields 3 "" (home "a") (home "b"))))
        ↔ (same (object (home "a")) (object (home "b")) ≡ false) × (true ≡ true))
    × (((run_job 3 compiled_once j).1 ≡ compiled)
        ↔ (true ≡ false) × (same (object (home "a")) (object (home "b")) && true ≡ false))
    × ((changed_fields 3 "" (home "a") (home "b") ≡ []) ↔ Agree 3 (home "a") (home "b"))
    × (changed_fields 3 "" (home "a") (home "b") ≡ changed_fields (4 + 3) "" (home "a") (home "b"))
run_job_ends_example =
    run_job_ends 3 4 compiled_once (compile_of true "b" waived) (home "a") levels_of_home
      stored_once refl refl

post_run-passed_example :
    let r = (compile_of false "a" waived).request in
    let e = post_run log_rules waived r false missing not_started in
    ((ended_status e ≡ passed) ⊎ (ended_status e ≡ failed))
    × ((ended_status e ≡ passed) ↔ JudgesPassed log_rules waived r false × Returns waived r false)
    × ((StoresFingerprint log_rules waived r false × (e.stored ≡ holds r.expected))
        ⊎ ((¬ StoresFingerprint log_rules waived r false) × (e.stored ≡ missing)))
post_run-passed_example =
    post_run-passed log_rules waived (compile_of false "a" waived).request false missing
