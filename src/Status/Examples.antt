-- ===== src/Status/Examples.antt =====
-- Runs and instances for the job status.
use rules_verilog.Base.{◌≡◌, refl}
use rules_verilog.Status.{to_be_bypassed, passed, failed, bypassed, moved, value_error, update}
use rules_verilog.Status.Transitions.{Reaches, here, next}

update_runs :
    (update to_be_bypassed passed ≡ moved bypassed)
    × (update failed passed ≡ value_error failed passed)
unfolding update
update_runs = (refl, refl)

to_be_bypassed_then_passed : Reaches to_be_bypassed bypassed
unfolding update
to_be_bypassed_then_passed = next passed here refl
