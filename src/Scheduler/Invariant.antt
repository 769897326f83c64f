-- ===== src/Scheduler/Invariant.antt =====
-- What holds of the scheduler's queues between two locked sections, and the rules by which the
-- sections keep it.
pub mod Exits
pub mod Promoting
pub mod Finishing
pub mod Hooks
pub mod Completing
pub mod Controls
pub mod Fixed
use rules_verilog.Base.{
  ℕ, ◌+◌, ◌≤◌, ◌<◌, ◌≡◌, ◌⊎◌, inl, inr, refl, sym, ◌∙◌, Bool, true, false, List, count, all, arith,
}
use rules_verilog.Status.{JobStatus, completed, successful}
use rules_verilog.Scheduler.State.{Manager, Graph, Statuses}
use rules_verilog.Scheduler.Waiting.{IsWaiting}
use rules_verilog.Scheduler.Promote.Conserved.{deps_stable}

-- How often a job stands in the queues behind the todo queue, in the queues of unfinished jobs, and
-- in all queues.
abbrev pub advanced : ℕ → Manager → ℕ
advanced z m = count z m.ready + count z m.launching + count z m.active + count z m.finalizing

abbrev pub unfinished : ℕ → Manager → ℕ
unfinished z m = count z m.todo + advanced z m

abbrev pub total : ℕ → Manager → ℕ
total z m = unfinished z m + count z m.done + count z m.skipped

abbrev pub deps_successful : Graph → Statuses → ℕ → Bool
deps_successful g status z = all (λ d. successful (status d)) (g.deps z)

pub record Inv (m : Manager) : Type 0 where
  -- No job stands in two queues, or twice in one.
  pub once : (z : ℕ) → total z m ≤ 1
  -- A job that is in no final queue has no final status.
  pub uncompleted : (z : ℕ) → 0 < unfinished z m → completed (m.status z) ≡ false
  -- Behind the todo queue all dependencies have succeeded.
  pub succeeded : (z : ℕ) → 0 < advanced z m → deps_successful m.graph m.status z ≡ true

pub Inv-IsWaiting : (m : Manager) → Inv m → IsWaiting m.status m.todo
Inv-IsWaiting m v = record {
  once = λ z. omega (arith, v.once z);
  uncompleted = λ z h. v.uncompleted z (omega arith);
}

-- A section that moves jobs on and never back: a status changes only for a job that was not
-- completed, and if the job is completed after it, the job is in no queue of unfinished jobs.
pub record Moves (m n : Manager) : Type 0 where
  pub graph_same : n.graph ≡ m.graph
  pub todo_le : (z : ℕ) → count z n.todo ≤ count z m.todo
  pub advanced_le : (z : ℕ) → advanced z n ≤ advanced z m
  pub changed :
      (z : ℕ)
      → (n.status z ≡ m.status z)
        ⊎ (completed (m.status z) ≡ false)
          × ((unfinished z n ≡ 0) ⊎ (completed (n.status z) ≡ false))

pub Moves-trans : {m n o : Manager} → Moves m n → Moves n o → Moves m o
Moves-trans {m} {n} {o} h k = record {
  graph_same = k.graph_same ∙ h.graph_same;
  todo_le = λ z. omega (arith, h.todo_le z, k.todo_le z);
  advanced_le = λ z. omega (arith, h.advanced_le z, k.advanced_le z);
  changed = λ z.
      change z (h.todo_le z) (k.todo_le z) (h.advanced_le z) (k.advanced_le z) (h.changed z)
        (k.changed z);
}
  where
    change :
        (z : ℕ)
        → count z n.todo ≤ count z m.todo
        → count z o.todo ≤ count z n.todo
        → advanced z n ≤ advanced z m
        → advanced z o ≤ advanced z n
        → (n.status z ≡ m.status z)
          ⊎ (completed (m.status z) ≡ false)
            × ((unfinished z n ≡ 0) ⊎ (completed (n.status z) ≡ false))
        → (o.status z ≡ n.status z)
          ⊎ (completed (n.status z) ≡ false)
            × ((unfinished z o ≡ 0) ⊎ (completed (o.status z) ≡ false))
        → (o.status z ≡ m.status z)
          ⊎ (completed (m.status z) ≡ false)
            × ((unfinished z o ≡ 0) ⊎ (completed (o.status z) ≡ false))
    change z a b c d p q = ground arith

pub changed-keeps :
    (m n : Manager) → Moves m n → (z : ℕ) → completed (m.status z) ≡ true → n.status z ≡ m.status z
changed-keeps m n h z c = ground (arith, h.changed z)

pub Moves-Inv : {m n : Manager} → Moves m n → ((z : ℕ) → total z n ≤ 1) → Inv m → Inv n
Moves-Inv {m} {n} h t v = record {
  once = t;
  uncompleted = λ z l. ground (arith, h.changed z, v.uncompleted z, h.todo_le z, h.advanced_le z);
  succeeded = λ z l. rw h.graph_same (
      deps_stable m.status n.status (m.graph.deps z) (changed-keeps m n h)
        (v.succeeded z (omega (arith, h.advanced_le z))));
}

-- What a section leaves alone that neither launches nor finishes a job.
pub record Frame (m n : Manager) : Type 0 where
  pub graph_same : n.graph ≡ m.graph
  pub launching_same : n.launching ≡ m.launching
  pub active_same : n.active ≡ m.active
  pub finalizing_same : n.finalizing ≡ m.finalizing
  pub done_same : n.done ≡ m.done
  pub limit_same : n.active_job_limit ≡ m.active_job_limit
  pub quit_count_same : n.quit_count ≡ m.quit_count
  pub error_count_same : n.error_count ≡ m.error_count
  pub thread_same : n.thread_active ≡ m.thread_active

pub Frame-trans : {m n o : Manager} → Frame m n → Frame n o → Frame m o
Frame-trans h k = record {
  graph_same = k.graph_same ∙ h.graph_same;
  launching_same = k.launching_same ∙ h.launching_same;
  active_same = k.active_same ∙ h.active_same;
  finalizing_same = k.finalizing_same ∙ h.finalizing_same;
  done_same = k.done_same ∙ h.done_same;
  limit_same = k.limit_same ∙ h.limit_same;
  quit_count_same = k.quit_count_same ∙ h.quit_count_same;
  error_count_same = k.error_count_same ∙ h.error_count_same;
  thread_same = k.thread_same ∙ h.thread_same;
}
