-- ===== src/Scheduler/Waiting.antt =====
-- The jobs of the todo queue, and the transition to SKIPPED that the scheduler makes for them.
use rules_verilog.Base.{
  ℕ, ◌≤◌, ◌<◌, ◌≡◌, true, false, some, List, ◌∷◌, elem, count, ==_iff, count-pos_of_elem, arith,
}
use rules_verilog.Status.{skipped, failed, completed}
use rules_verilog.Status.Transitions.{update-skipped, update-failed}
use rules_verilog.Scheduler.State.{Statuses, assign, mark, set_at}

-- The jobs of the list stand there once, and are not completed.
pub record IsWaiting (status : Statuses) (todo : List ℕ) : Type 0 where
  pub once : (z : ℕ) → count z todo ≤ 1
  pub uncompleted : (z : ℕ) → 0 < count z todo → completed (status z) ≡ false

pub assign_uncompleted :
    (c : ℕ) (status : Statuses)
    → completed (status c) ≡ false
    → assign c skipped status ≡ some (set_at c skipped status)
unfolding assign
assign_uncompleted c status h = rw (update-skipped (status c) h, assign)

-- A waiting job can always be marked.
pub assign-skipped :
    (c : ℕ) (status : Statuses) (todo : List ℕ)
    → IsWaiting status todo
    → elem c todo ≡ true
    → assign c skipped status ≡ some (set_at c skipped status)
assign-skipped c status todo w h =
    assign_uncompleted c status (w.uncompleted c (count-pos_of_elem c todo h))

-- The setter and its form without the exception agree where the transition is legal.
pub mark-skipped :
    (c : ℕ) (status : Statuses)
    → completed (status c) ≡ false
    → mark c skipped status ≡ set_at c skipped status
unfolding mark
mark-skipped c status h = rw (update-skipped (status c) h, mark)

pub mark-failed : (c : ℕ) (status : Statuses) → mark c failed status ≡ set_at c failed status
unfolding mark
mark-failed c status = rw (update-failed (status c), mark)

pub IsWaiting-tail :
    {status : Statuses} {j : ℕ} {js : List ℕ} → IsWaiting status (j ∷ js) → IsWaiting status js
IsWaiting-tail {status} {j} {js} w = record {
  once = λ z. omega (arith, w.once z);
  uncompleted = λ z h. w.uncompleted z (omega arith);
}

-- Marking the first job leaves the others waiting.
pub IsWaiting-marked :
    {status : Statuses} {j : ℕ} {js : List ℕ}
    → IsWaiting status (j ∷ js)
    → IsWaiting (set_at j skipped status) js
IsWaiting-marked {status} {j} {js} w = record {
  once = λ z. omega (arith, w.once z);
  uncompleted = λ z h. ground (arith, w.once z, w.uncompleted z, ==_iff z j);
}
