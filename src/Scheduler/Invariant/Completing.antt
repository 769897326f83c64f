-- ===== src/Scheduler/Invariant/Completing.antt =====
-- The invariant under the end of a job: the move that follows its hook.
use rules_verilog.Base.{
  ℕ, ◌≡◌, inl, refl, ◌∙◌, ap, true, [], ◌∷◌, count-append, count-remove, count-pos_of_elem, elem,
  remove, arith, ==_iff,
}
use rules_verilog.Status.{completed, failed}
use rules_verilog.Scheduler.State.{Manager, mark}
use rules_verilog.Scheduler.Waiting.{mark-failed}
use rules_verilog.Scheduler.Skip.{move_children_to_skipped}
use rules_verilog.Scheduler.Promote.{promoted, move_todo_to_ready}
use rules_verilog.Scheduler.Launch.{append_done}
use rules_verilog.Scheduler.Finish.{
  PostRun, count_error, run_post_run, complete_job, start_finalizing, drop_active,
  record_incomplete_shutdown,
}
use rules_verilog.Scheduler.Invariant.{Inv, changed-keeps}
use rules_verilog.Scheduler.Invariant.Exits.{
  Keeps-trans, Keeps-Inv, move_children-Keeps, graceful_exit-Keeps,
}
use rules_verilog.Scheduler.Invariant.Promoting.{
  Section, Section-trans, Moves-Section, move_todo_to_ready-IsPassed, passed-Section,
  passed_manager,
}
use rules_verilog.Scheduler.Invariant.Finishing.{
  Removes, Removes-Inv, Removes-Keeps, Removes-file_done,
}
use rules_verilog.Scheduler.Invariant.Hooks.{
  count_error-with_finalizing, hooked, hooked-Removes, count_error-Section, count_error-finalizing,
}

-- Filing the job among the done ones after a section that ran while it was in no queue.
Removes-Section :
    {j : ℕ} {m h n : Manager} → Removes j m h → Section h n → Inv m → Section m (append_done j n)
Removes-Section {j} {m} {h} {n} r s v = record {
  inv = record {
    once = λ z. omega (arith, r.totals z, s.totals z, v.once z, count-append z n.done (j ∷ []));
    uncompleted = s.inv.uncompleted;
    succeeded = s.inv.succeeded;
  };
  totals = λ z. omega (arith, r.totals z, s.totals z, count-append z n.done (j ∷ []));
  stable =
      λ z c. let same = changed-keeps m h r.moves z c in s.stable z (ap completed same ∙ c) ∙ same;
  graph_same = s.graph_same ∙ r.moves.graph_same;
}

-- The state in which `_complete_job` moves the todo queue.
abbrev pub before_move : PostRun → ℕ → Manager → Manager
before_move hook j m = append_done j (count_error j (hooked hook j m))

pub complete_job_lem :
    (hook : PostRun) (j : ℕ) (m : Manager)
    → complete_job hook j m ≡ move_todo_to_ready (before_move hook j m)
unfolding complete_job
complete_job_lem hook j m =
    let n = run_post_run hook j m in
    rw (count_error-with_finalizing j (remove j m.finalizing) n, count_error-finalizing j n)

pub before_move-Section :
    (hook : PostRun) (j : ℕ) (m : Manager)
    → Inv m
    → elem j m.finalizing ≡ true
    → Section m (before_move hook j m)
before_move-Section hook j m v h =
    let r = hooked-Removes hook j m v h in
    Removes-Section r (count_error-Section j (hooked hook j m) (Removes-Inv r v)) v

-- `_complete_job` always ends without an exception.
pub record Completes (hook : PostRun) (j : ℕ) (m : Manager) : Type 0 where
  pub after : Manager
  pub ends : complete_job hook j m ≡ promoted after
  pub section : Section m after

unfoldable pub complete_job-Completes :
    (hook : PostRun) (j : ℕ) (m : Manager) → Inv m → elem j m.finalizing ≡ true → Completes hook j m
complete_job-Completes hook j m v h =
    let s = before_move-Section hook j m v h in
    let p = move_todo_to_ready-IsPassed (before_move hook j m) s.inv in
    record {
      after = passed_manager (before_move hook j m) p;
      ends = complete_job_lem hook j m ∙ p.ends;
      section = Section-trans s (passed-Section (before_move hook j m) s.inv p);
    }

pub start_finalizing-Section :
    (j : ℕ) (m : Manager) → Inv m → elem j m.active ≡ true → Section m (start_finalizing j m)
unfolding start_finalizing
start_finalizing-Section j m v h =
    Moves-Section
      (record {
        graph_same = refl;
        todo_le = λ z. omega arith;
        advanced_le =
            λ z. omega (arith, count-remove j z m.active h, count-append z m.finalizing (j ∷ []));
        changed = λ z. inl refl;
      })
      (λ z. omega (arith, count-remove j z m.active h, count-append z m.finalizing (j ∷ []))) v

abbrev pub failed_active : ℕ → Manager → Manager
failed_active j m = drop_active j (record m { status = mark j failed m.status })

pub failed_active-Removes :
    (j : ℕ) (m : Manager) → Inv m → elem j m.active ≡ true → Removes j m (failed_active j m)
failed_active-Removes j m v h = record {
  moves = record {
    graph_same = refl;
    todo_le = λ z. omega arith;
    advanced_le = λ z. omega (arith, count-remove j z m.active h);
    changed = λ z. ground (
      arith,
      ap (λ f. f z) (mark-failed j m.status),
      ==_iff z j,
      count-remove j z m.active h,
      count-pos_of_elem j m.active h,
      v.uncompleted z,
      v.once z,
    );
  };
  totals = λ z. omega (arith, count-remove j z m.active h);
}

-- The poll names an active job.
pub record_incomplete_shutdown-Section :
    (j : ℕ) (m : Manager)
    → Inv m
    → elem j m.active ≡ true
    → Section m (record_incomplete_shutdown j m)
unfolding record_incomplete_shutdown
record_incomplete_shutdown-Section j m v h =
    let gone = failed_active-Removes j m v h in
    let v1 = Removes-Inv gone v in
    let children = move_children-Keeps j (failed_active j m) v1 in
    let exit =
      graceful_exit-Keeps (move_children_to_skipped j (failed_active j m))
        (Keeps-Inv children v1) in
    rw h (Removes-file_done v (Removes-Keeps gone (Keeps-trans children exit)))
