-- ===== src/Scheduler/Promote.antt =====
-- lib/job_lib.py, JobManager._move_todo_to_ready_locked: jobs whose dependencies are all done leave
-- the todo queue, for the ready queue or, if a dependency failed, for the skipped jobs.
pub mod Removal
pub mod Conserved
use rules_verilog.Base.{
  ℕ, zero, suc, ◌+◌, Bool, true, false, not, Option, none, some, List, [], ◌∷◌, ◌++◌, all, take,
  drop, if◌then◌else◌,
}
use rules_verilog.Status.{skipped, completed, successful}
use rules_verilog.Queue.{insort_right}
use rules_verilog.Scheduler.State.{Statuses, assign, Manager, Graph}

pub data Verdict : Type 0 where
  wait promote reject : Verdict

-- The tests of the loop body, on the dependencies of one job.
unfoldable pub judge : Statuses → List ℕ → Verdict
judge status [] = promote
judge status (d ∷ ds) =
    if not (all (λ x. completed (status x)) (d ∷ ds))
    then wait
    else if all (λ x. successful (status x)) (d ∷ ds)
    then promote
    else reject

-- What the loop changes; `advanced` is `jobs_that_advanced_state`, the last index first.
pub record Sweep : Type 0 where
  pub status : Statuses
  pub ready : List ℕ
  pub skips : List ℕ
  pub advanced : List ℕ

-- A ValueError of the setter ends the loop; what it changed before that stays.
pub data Swept : Type 0 where
  finished raised : Sweep → Swept

unfoldable pub sweep : Graph → ℕ → List ℕ → Sweep → Swept
sweep g i [] s = finished s
sweep g i (j ∷ js) s = elim (judge s.status (g.deps j)) [
  | wait ↦ sweep g (suc i) js s
  | promote ↦
      sweep g (suc i) js
        (record s { ready = insort_right g.priority j s.ready; advanced = i ∷ s.advanced })
  | reject ↦ elim (assign j skipped s.status) [
    | none ↦ raised (record s { advanced = i ∷ s.advanced; skips = s.skips ++ (j ∷ []) })
    | some status ↦
        sweep g (suc i) js
          (record s { status = status; advanced = i ∷ s.advanced; skips = s.skips ++ (j ∷ []) })
  ]
]

-- `self._todo.pop(i)` for an index in range.
abbrev pub pop : ℕ → List ℕ → List ℕ
pop i l = take i l ++ drop (suc i) l

-- The loop `for i in reversed(jobs_that_advanced_state)`.
abbrev pub pop_all : List ℕ → List ℕ → List ℕ
pop_all [] l = l
pop_all (i ∷ is) l = pop_all is (pop i l)

pub data Promoted : Type 0 where
  promoted value_error : Manager → Promoted

abbrev pub settle : Manager → Swept → Promoted
settle m (finished s) = promoted (record m {
  status = s.status;
  ready = s.ready;
  skipped = s.skips;
  todo = pop_all s.advanced m.todo;
})
settle m (raised s) =
    value_error (record m { status = s.status; ready = s.ready; skipped = s.skips })

unfoldable pub move_todo_to_ready : Manager → Promoted
unfolding sweep
move_todo_to_ready m = settle m (
    sweep m.graph 0 m.todo
      (record { status = m.status; ready = m.ready; skips = m.skipped; advanced = [] }))
