-- ===== src/Simmer/TestEnd/Examples.antt =====
-- The end of a test.
use rules_verilog.Base.{◌≡◌, refl, Bool, true, false, not, ◌&&◌, none, some, ◌↔◌, ◌⊎◌}
use rules_verilog.Base.Int.{pos}
use rules_verilog.Status.{not_started, to_be_bypassed, failed, successful}
use rules_verilog.Simmer.Compile.{is_zero}
use rules_verilog.Simmer.TestEnd.{Simulated, TestEnd, no_error, no_wave, post_run}
use rules_verilog.Simmer.TestEnd.Passing.{Passes, post_run-Passes}

abbrev simulated : Bool → Simulated
simulated wave = record {
  returncode = some (pos 0);
  log_exists = true;
  error_text = none;
  waves = true;
  wave_exists = wave;
  tidy = true;
  spawns = false;
  begins = true;
  links = true;
  reads_errors = true;
  shows_wave = true;
  ends = true;
}

-- A test without the wave that was asked for fails, and its directory stays.
no_wave_fails :
    post_run (simulated false) not_started
    ≡ some (record {
      status = failed;
      error_message = no_wave;
      links_last_fail = false;
      cleans_coverage = true;
      removes_directory = false;
      adds_clone = false;
    })
unfolding post_run
no_wave_fails = refl

post_run-Passes_example :
    let m = simulated true in
    (e : TestEnd) × (post_run m to_be_bypassed ≡ some e)
    × ((successful e.status ≡ true) ⊎ (e.status ≡ failed))
    × ((successful e.status ≡ true) ↔ Passes m)
    × ((e.error_message ≡ no_error) ↔ (successful e.status ≡ true))
    × (e.cleans_coverage ≡ not (successful e.status))
    × (e.removes_directory ≡ m.tidy && successful e.status)
    × (e.links_last_fail ≡ not (is_zero m.returncode))
post_run-Passes_example =
    post_run-Passes (simulated true) to_be_bypassed refl (refl, refl, refl, refl, refl)
