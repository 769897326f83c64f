-- ===== src/Scheduler/Skip.antt =====
-- lib/job_lib.py, JobManager._move_children_to_skipped_locked: when a job fails, the jobs of the
-- todo queue that depend on it are taken out and marked as skipped.
pub mod Conserved
pub mod Closed
use rules_verilog.Base.{
  ℕ, zero, suc, Bool, true, false, Option, none, some, List, [], ◌∷◌, ◌++◌, elem, remove, length,
}
use rules_verilog.Status.{skipped}
use rules_verilog.Scheduler.State.{Statuses, assign, Manager, Graph}

-- The part of the manager that the method touches.
pub record Pool : Type 0 where
  pub status : Statuses
  pub todo : List ℕ
  pub skips : List ℕ

-- The loop over the children, and its recursion. Each recursive call stands behind a removal from
-- the todo queue, so the length of that queue bounds their depth.
unfoldable pub skip_children : Graph → ℕ → List ℕ → Pool → Pool
skip_children g bound [] p = p
skip_children g zero (c ∷ cs) p = p
skip_children g (suc bound) (c ∷ cs) p = elim (elem c p.todo) [
  | false ↦ skip_children g (suc bound) cs p
  | true ↦ elim (assign c skipped p.status) [
    | none ↦ skip_children g (suc bound) cs (record p { todo = remove c p.todo })
    | some status ↦ skip_children g (suc bound) cs (
        skip_children g bound (g.children c)
          (record { status = status; todo = remove c p.todo; skips = p.skips ++ (c ∷ []) }))
  ]
]

unfoldable pub move_children_to_skipped : ℕ → Manager → Manager
unfolding skip_children
move_children_to_skipped j m =
    let p =
      skip_children m.graph (length m.todo) (m.graph.children j)
        (record { status = m.status; todo = m.todo; skips = m.skipped }) in
    record m { status = p.status; todo = p.todo; skipped = p.skips }
