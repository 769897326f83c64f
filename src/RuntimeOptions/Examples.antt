-- ===== src/RuntimeOptions/Examples.antt =====
-- Runs and instances for the runtime options.
use rules_verilog.Base.{◌≡◌, refl, false, String, Option, none, some, [], ◌∷◌, if◌then◌else◌}
use rules_verilog.Base.Int.{pos}
use rules_verilog.Results.Text.{str_eq}
use rules_verilog.RuntimeOptions.{
  RuntimeOptions, minutes, get_or, merge_test_runtime_sim_opts, resolve_test_timeout_hours,
  of_minutes,
}
use rules_verilog.RuntimeOptions.Precedence.{
  lookup, or_default, last_value, lookup-merge_test_runtime_sim_opts,
}

-- A text that is "xrun" becomes "XRUN".
abbrev upper : String → String
upper s = if str_eq s "xrun" then "XRUN" else s

abbrev split : String → String × Option String
split s = if str_eq s "+A=2" then ("+A", some "2") else (s, none)

abbrev append_equals : String → String
append_equals s = if str_eq s "+A" then "+A=" else s

abbrev options : RuntimeOptions
options = record {
  schema_version = none;
  simulator = some "xrun";
  uvm_testname = none;
  sim_opts = some (("+A=", "1") ∷ ("+B", "") ∷ []);
  timeout_minutes = none;
  timeout = some (minutes (pos 30));
  sockets = none;
  tags = none;
  pre_run = none;
  run_pass_patterns = none;
  run_fail_patterns = none;
}

options_run :
    (merge_test_runtime_sim_opts upper split append_equals options ("+A=2" ∷ "+C" ∷ [])
      ≡ ("+A=", "2") ∷ ("+B", "") ∷ ("+C", "") ∷ [])
    × (resolve_test_timeout_hours upper options false ≡ of_minutes 30)
unfolding merge_test_runtime_sim_opts resolve_test_timeout_hours
options_run = (refl, refl)

lookup-merge_test_runtime_sim_opts_example :
    lookup "+A=" (merge_test_runtime_sim_opts upper split append_equals options ("+A=2" ∷ []))
    ≡ or_default
        (last_value upper split append_equals "+A=" ("+A=2" ∷ []))
        (lookup "+A=" (get_or options.sim_opts []))
lookup-merge_test_runtime_sim_opts_example =
    lookup-merge_test_runtime_sim_opts upper split append_equals options ("+A=2" ∷ []) "+A="
