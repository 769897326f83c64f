-- ===== src/Scheduler/Building.antt =====
-- lib/job_lib.py, Job.add_dependency and Job.increase_priority: how the graph of the jobs is built
-- before they are handed to the manager.
pub mod Priorities
pub mod Ordered
mod Examples
use rules_verilog.Base.{ℕ, zero, suc, Option, none, some, List, [], ◌∷◌, ◌++◌}
use rules_verilog.Base.Int.{ℤ, negsuc, ◌+ℤ◌}
use rules_verilog.Scheduler.Control.{add_job}
use rules_verilog.Scheduler.State.{Manager, Graph, Mode, set_at}

-- The jobs as `Job.__init__` makes them, with the priority -3600.
abbrev pub new_jobs : (ℕ → Mode) → Graph
new_jobs mode = record {
  priority = λ _. negsuc 3599;
  mode = mode;
  deps = λ _. [];
  children = λ _. [];
}

abbrev pub for_all : (ℕ → Graph → Graph) → List ℕ → Graph → Graph
for_all f [] g = g
for_all f (d ∷ ds) g = for_all f ds (f d g)

abbrev pub raise_one : ℕ → ℤ → Graph → Graph
raise_one j value g = record g { priority = set_at j (g.priority j +ℤ value) g.priority }

-- The recursion over the dependencies, by recursion on a bound for its depth.
unfoldable pub increase_priority : (bound : ℕ) → ℕ → ℤ → Graph → Graph
increase_priority zero j value g = g
increase_priority (suc bound) j value g =
    for_all (λ d h. increase_priority bound d value h) (g.deps j) (raise_one j value g)

abbrev pub link : ℕ → ℕ → Graph → Graph
link j d g = record g {
  deps = set_at j (g.deps j ++ (d ∷ [])) g.deps;
  children = set_at d (g.children d ++ (j ∷ [])) g.children;
}

-- `Job.add_dependency`; a missing dependency is an error in the log and nothing else.
unfoldable pub add_dependency : (bound : ℕ) → ℕ → Option ℕ → Graph → Graph
unfolding increase_priority
add_dependency bound j none g = g
add_dependency bound j (some d) g = increase_priority bound d (g.priority j) (link j d g)

abbrev pub add_dependencies : (bound : ℕ) → List (ℕ × ℕ) → Graph → Graph
add_dependencies bound [] g = g
add_dependencies bound ((j, d) ∷ es) g =
    add_dependencies bound es (add_dependency bound j (some d) g)

-- `for job in jobs: jm.add_job(job)`, as main of bin/simmer.py hands the jobs over.
abbrev pub add_jobs : List ℕ → Manager → Manager
add_jobs [] m = m
add_jobs (j ∷ js) m = add_jobs js (add_job j m)
