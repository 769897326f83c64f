-- ===== src/Scheduler/Building/Examples.antt =====
-- A graph of a build, a compile, its test configurations and two tests.
use rules_verilog.Base.{ℕ, ◌≡◌, refl, List, [], ◌∷◌, arith}
use rules_verilog.Base.Int.{◌+ℤ◌}
use rules_verilog.Status.{not_started}
use rules_verilog.Queue.{insort_right}
use rules_verilog.Scheduler.State.{Graph, exclusive, fresh}
use rules_verilog.Scheduler.Control.{add_job}
use rules_verilog.Scheduler.Building.{new_jobs, add_dependency, add_dependencies, add_jobs}
use rules_verilog.Scheduler.Building.Ordered.{add_jobs-IsOrdered}
use rules_verilog.Scheduler.Thread.Sleep.{IsOrdered}

abbrev edges : List (ℕ × ℕ)
edges = (1, 0) ∷ (2, 1) ∷ (3, 1) ∷ (3, 2) ∷ (4, 1) ∷ (4, 2) ∷ []

abbrev graph : Graph
graph = add_dependencies 5 edges (new_jobs (λ j. exclusive))

abbrev given_jobs : List ℕ
given_jobs = 3 ∷ 0 ∷ 4 ∷ 2 ∷ 1 ∷ []

in_front : (add_jobs given_jobs (fresh graph (λ _. not_started) 2 1)).todo ≡ 0 ∷ 1 ∷ 2 ∷ 3 ∷ 4 ∷ []
unfolding add_job insort_right add_dependency ◌+ℤ◌
in_front = refl

add_jobs-IsOrdered_example :
    IsOrdered graph (add_jobs given_jobs (fresh graph (λ _. not_started) 2 1)).todo
add_jobs-IsOrdered_example =
    add_jobs-IsOrdered (λ j. j) (λ j. exclusive) 5 edges given_jobs (λ _. not_started) 2 1
      (
        (omega arith, omega arith),
        (
          (omega arith, omega arith),
          (
            (omega arith, omega arith),
            (
              (omega arith, omega arith),
              ((omega arith, omega arith), ((omega arith, omega arith), tt)),
            ),
          ),
        ),
      )
