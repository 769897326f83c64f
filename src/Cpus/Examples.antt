-- ===== src/Cpus/Examples.antt =====
-- Runs and an instance for the allocated CPUs.
use rules_verilog.Base.{◌≤◌, ◌≡◌, refl, true, none, some, [], ◌∷◌, if◌then◌else◌}
use rules_verilog.Base.Int.{pos}
use rules_verilog.Results.Text.{str_eq}
use rules_verilog.Cpus.{Texts, Environment, Source, detect_allocated_cpus}
use rules_verilog.Cpus.Bounds.{detect_allocated_cpus-IsAllowed}

-- The only number is "4", and no text has capitals or dots.
abbrev texts : Texts
texts = record {
  int = λ s. if str_eq s "4" then some (pos 4) else none;
  lower = λ s. s;
  short = λ s. s;
}

abbrev environment : Environment
environment = record {
  lsb_mcpu_hosts = "node" ∷ "4" ∷ [];
  lsb_hosts = [];
  slurm_cpus_per_task = none;
  lsb_djob_numproc = none;
  hostname = "node";
  affinity = some 3;
  host_cpu_count = some 64;
}

four_capped : detect_allocated_cpus texts environment ≡ (3, Source.lsb_mcpu_hosts true)
unfolding detect_allocated_cpus
four_capped = refl

detect_allocated_cpus-IsAllowed_example :
    (1 ≤ (detect_allocated_cpus texts environment).0)
    × ((detect_allocated_cpus texts environment).0 ≤ 3)
detect_allocated_cpus-IsAllowed_example = detect_allocated_cpus-IsAllowed texts environment
