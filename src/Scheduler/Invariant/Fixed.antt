-- ===== src/Scheduler/Invariant/Fixed.antt =====
-- What each section does to the queues of the running jobs.
use rules_verilog.Base.{
  ℕ, ◌≡◌, inl, inr, refl, ◌∙◌, Bool, true, false, List, [], ◌∷◌, ◌++◌, elem, remove, arith,
  Bool-cases,
}
use rules_verilog.Status.{successful}
use rules_verilog.Scheduler.State.{Manager}
use rules_verilog.Scheduler.Skip.{move_children_to_skipped}
use rules_verilog.Scheduler.Launch.{
  exit_at_quit_count, fail_launch, append_done, launch_failed, launched,
}
use rules_verilog.Scheduler.Finish.{PostRun, count_error, record_incomplete_shutdown}
use rules_verilog.Scheduler.Invariant.{Inv, Moves-Inv}
use rules_verilog.Scheduler.Invariant.Exits.{
  Keeps, Keeps-trans, Keeps-Inv, move_children-Keeps, graceful_exit-Keeps, exit_at_quit_count-Keeps,
}
use rules_verilog.Scheduler.Invariant.Finishing.{Removes-Inv, fail_launch-Removes}
use rules_verilog.Scheduler.Invariant.Completing.{
  complete_job-Completes, failed_active, failed_active-Removes,
}
use rules_verilog.Scheduler.Invariant.Hooks.{hooked, hooked-Removes, bump, bump-Moves}

-- The queues of the running jobs after a section, in terms of those before it.
pub record Fixed (m n : Manager) (launching active finalizing : List ℕ) : Type 0 where
  pub launching_is : n.launching ≡ launching
  pub active_is : n.active ≡ active
  pub finalizing_is : n.finalizing ≡ finalizing
  pub limit_same : n.active_job_limit ≡ m.active_job_limit
  pub graph_same : n.graph ≡ m.graph

pub Keeps-Fixed :
    {m n o : Manager} {la ac fi : List ℕ} → Fixed m n la ac fi → Keeps n o → Fixed m o la ac fi
Keeps-Fixed h k = record {
  launching_is = k.frame.launching_same ∙ h.launching_is;
  active_is = k.frame.active_same ∙ h.active_is;
  finalizing_is = k.frame.finalizing_same ∙ h.finalizing_is;
  limit_same = k.frame.limit_same ∙ h.limit_same;
  graph_same = k.frame.graph_same ∙ h.graph_same;
}

-- Filing a job among the done ones does not touch them.
Fixed-append_done :
    {m n : Manager} {la ac fi : List ℕ} (j : ℕ)
    → Fixed m n la ac fi
    → Fixed m (append_done j n) la ac fi
Fixed-append_done j h = record {
  launching_is = h.launching_is;
  active_is = h.active_is;
  finalizing_is = h.finalizing_is;
  limit_same = h.limit_same;
  graph_same = h.graph_same;
}

pub launch_failed-Fixed :
    (j : ℕ) (m : Manager)
    → Inv m
    → elem j m.launching ≡ true
    → Fixed m (launch_failed j m) (remove j m.launching) m.active m.finalizing
unfolding launch_failed
launch_failed-Fixed j m v h =
    let v1 = Removes-Inv (fail_launch-Removes j m v h) v in
    let children = move_children-Keeps j (fail_launch j m) v1 in
    let exit =
      exit_at_quit_count-Keeps (move_children_to_skipped j (fail_launch j m))
        (Keeps-Inv children v1) in
    let start : Fixed m (fail_launch j m) (remove j m.launching) m.active m.finalizing = record {
      launching_is = refl;
      active_is = refl;
      finalizing_is = refl;
      limit_same = refl;
      graph_same = refl;
    } in
    Fixed-append_done j (Keeps-Fixed start (Keeps-trans children exit))

pub record_incomplete_shutdown-Fixed :
    (j : ℕ) (m : Manager)
    → Inv m
    → elem j m.active ≡ true
    → Fixed m (record_incomplete_shutdown j m) m.launching (remove j m.active) m.finalizing
unfolding record_incomplete_shutdown
record_incomplete_shutdown-Fixed j m v h =
    let v1 = Removes-Inv (failed_active-Removes j m v h) v in
    let children = move_children-Keeps j (failed_active j m) v1 in
    let exit =
      graceful_exit-Keeps (move_children_to_skipped j (failed_active j m))
        (Keeps-Inv children v1) in
    let start : Fixed m (failed_active j m) m.launching (remove j m.active) m.finalizing = record {
      launching_is = refl;
      active_is = refl;
      finalizing_is = refl;
      limit_same = refl;
      graph_same = refl;
    } in
    rw h (Fixed-append_done j (Keeps-Fixed start (Keeps-trans children exit)))

count_error-Fixed :
    (j : ℕ) (m : Manager) → Inv m → Fixed m (count_error j m) m.launching m.active m.finalizing
count_error-Fixed j m v =
    let v1 = Moves-Inv (bump-Moves m) v.once v in
    let exit = exit_at_quit_count-Keeps (bump m) v1 in
    let children = move_children-Keeps j (exit_at_quit_count (bump m)) (Keeps-Inv exit v1) in
    let start : Fixed m (bump m) m.launching m.active m.finalizing = record {
      launching_is = refl;
      active_is = refl;
      finalizing_is = refl;
      limit_same = refl;
      graph_same = refl;
    } in
    elim (Bool-cases (successful (m.status j))) [
      | inl fine ↦ rw fine (record {
        launching_is = refl;
        active_is = refl;
        finalizing_is = refl;
        limit_same = refl;
        graph_same = refl;
      })
      | inr bad ↦ rw bad (Keeps-Fixed start (Keeps-trans exit children))
    ]

pub complete_job-Fixed :
    (hook : PostRun) (j : ℕ) (m : Manager) (v : Inv m) (h : elem j m.finalizing ≡ true)
    → Fixed m
        (complete_job-Completes hook j m v h).after
        m.launching
        m.active
        (remove j m.finalizing)
unfolding complete_job-Completes
complete_job-Fixed hook j m v h =
    let c = count_error-Fixed j (hooked hook j m) (Removes-Inv (hooked-Removes hook j m v h) v) in
    record {
      launching_is = c.launching_is;
      active_is = c.active_is;
      finalizing_is = c.finalizing_is;
      limit_same = c.limit_same;
      graph_same = c.graph_same;
    }

pub launched_active :
    (stopped : Bool) (j : ℕ) (m : Manager)
    → m.thread_active ≡ true
    → Fixed m (launched stopped j m) (remove j m.launching) (m.active ++ (j ∷ [])) m.finalizing
unfolding launched
launched_active stopped j m a = record {
  launching_is = ground arith;
  active_is = ground arith;
  finalizing_is = ground arith;
  limit_same = ground arith;
  graph_same = ground arith;
}

pub launched_inactive :
    (stopped : Bool) (j : ℕ) (m : Manager)
    → m.thread_active ≡ false
    → Fixed m (launched stopped j m) (remove j m.launching) m.active m.finalizing
unfolding launched
launched_inactive stopped j m a = record {
  launching_is = ground arith;
  active_is = ground arith;
  finalizing_is = ground arith;
  limit_same = ground arith;
  graph_same = ground arith;
}
