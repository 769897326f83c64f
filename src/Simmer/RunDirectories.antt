-- ===== src/Simmer/RunDirectories.antt =====
-- bin/simmer.py, _format_simulation_directory_name and TestJob._claim_run_directory: the directory of
-- a test's run. The text of a number and whether the lock file of a directory can be locked, which the
-- operating system says, are parameters.
pub mod Free
use rules_verilog.Base.{
  ℕ, zero, suc, Bool, true, false, String, Option, none, some, ltb, ◌==◌, if◌then◌else◌,
}
use Prim.Native.String.{◌++◌ as ◌^◌}
use rules_verilog.Results.Text.{str_eq}

module _ (digits : ℕ → String) where
  -- `strip_underscores` is `lstrip('_')`.
  unfoldable pub format_simulation_directory_name :
      (strip_underscores : String → String) (vcomp simulator test : String) (seed iteration : ℕ)
      (suffix : String)
      → String
  format_simulation_directory_name strip_underscores vcomp simulator test seed iteration suffix =
      let normalized = strip_underscores suffix in
      let result = vcomp ^ ("__" ^ (simulator ^ ("__" ^ (test ^ ("__" ^ digits seed))))) in
      (if ltb 1 iteration then result ^ ("__i" ^ digits iteration) else result)
      ^ (if str_eq normalized "" then "" else "_" ^ normalized)

  -- The name that is tried after a number of collisions.
  unfoldable pub directory_name : (pid : ℕ) → String → ℕ → String
  directory_name pid base zero = base
  directory_name pid base (suc zero) = base ^ ("__run_p" ^ digits pid)
  directory_name pid base (suc (suc k)) =
      base ^ (("__run_p" ^ digits pid) ^ ("_" ^ digits (suc (suc k))))

  -- The loop, from a collision index on: the index and the name of the directory that is claimed.
  unfoldable pub claim_from :
      (bound : ℕ) → (String → Bool) → (pid : ℕ) → String → ℕ → Option (ℕ × String)
  unfolding directory_name
  claim_from zero can_lock pid base i = none
  claim_from (suc bound) can_lock pid base i =
      let later = claim_from bound can_lock pid base (suc i) in
      if can_lock (directory_name pid base i) then some (i, directory_name pid base i) else later

  unfoldable pub claim_run_directory :
      (bound : ℕ) → (String → Bool) → (pid : ℕ) → String → Option (ℕ × String)
  unfolding claim_from
  claim_run_directory bound can_lock pid base = claim_from bound can_lock pid base 0
