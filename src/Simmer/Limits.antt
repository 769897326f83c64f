-- ===== src/Simmer/Limits.antt =====
-- bin/simmer.py, get_active_job_limit: how many jobs may run at once.
pub mod Bounds
use rules_verilog.Base.{
  ℕ, ◌+◌, ◌/◌, max, min, Bool, true, false, Option, none, some, List, [], ◌∷◌, if◌then◌else◌, leb,
}
use rules_verilog.Cpus.{Texts, Environment, detect_allocated_cpus}

abbrev pub sum : List ℕ → ℕ
sum [] = 0
sum (n ∷ ns) = n + sum ns

-- The requested jobs; a number below 0 is 0, as the limit is the same. A back end says how many
-- threads a test takes, at least 1.
module _ (t : Texts) where
  abbrev pub requested : Option ℕ → Environment → ℕ → ℕ
  requested (some jobs) e threads_per_test = jobs
  requested none e threads_per_test = max 1 ((detect_allocated_cpus t e).0 / threads_per_test)

  unfoldable pub get_active_job_limit : List ℕ → (gui : Bool) → Option ℕ → Environment → ℕ → ℕ
  get_active_job_limit targets gui jobs e threads_per_test =
      if leb (sum targets) 1
      then 1
      else if gui
      then 1
      else max 1 (min (sum targets) (requested jobs e threads_per_test))
