-- ===== src/Scheduler/Invariant/Finishing.antt =====
-- The end of a launch and the end of a job keep the invariant.
use rules_verilog.Base.{
  ℕ, ◌+◌, ◌≡◌, ◌⊎◌, inl, refl, ap, Bool, true, false, [], ◌∷◌, count-append, count-remove,
  count-pos_of_elem, elem, arith, one_if, ◌==◌, ==_iff,
}
use rules_verilog.Status.{JobStatus, completed, skipped}
use rules_verilog.Scheduler.State.{Manager, Statuses, set_at}
use rules_verilog.Scheduler.Waiting.{mark-failed, mark-skipped}
use rules_verilog.Scheduler.Skip.{move_children_to_skipped}
use rules_verilog.Scheduler.Launch.{
  fail_launch, append_done, launch_failed, launch_cancelled, launched, mark_uncompleted,
}
use rules_verilog.Scheduler.Invariant.{Inv, Moves, Moves-Inv, Moves-trans, total}
use rules_verilog.Scheduler.Invariant.Exits.{
  Keeps, Keeps-trans, Keeps-Inv, move_children-Keeps, exit_at_quit_count-Keeps,
}
use rules_verilog.Scheduler.Invariant.Promoting.{Section, Moves-Section}

-- A section takes job `j` out of all queues: then `m` still has it once more than `n`.
pub record Removes (j : ℕ) (m n : Manager) : Type 0 where
  pub moves : Moves m n
  pub totals : (z : ℕ) → total z n + one_if (z == j) ≡ total z m

pub Removes-Inv : {j : ℕ} {m n : Manager} → Removes j m n → Inv m → Inv n
Removes-Inv h v = Moves-Inv h.moves (λ z. omega (arith, h.totals z, v.once z)) v

pub Removes-Keeps : {j : ℕ} {m n o : Manager} → Removes j m n → Keeps n o → Removes j m o
Removes-Keeps h k = record {
  moves = Moves-trans h.moves k.moves;
  totals = λ z. omega (arith, h.totals z, k.totals z);
}

-- Filing the job again, among the jobs that are done or skipped, completes the section.
pub Removes-file_done :
    {j : ℕ} {m n : Manager} → Inv m → Removes j m n → Section m (append_done j n)
Removes-file_done {j} {m} {n} v h =
    Moves-Section
      (record {
        graph_same = h.moves.graph_same;
        todo_le = h.moves.todo_le;
        advanced_le = h.moves.advanced_le;
        changed = h.moves.changed;
      })
      (λ z. omega (arith, h.totals z, count-append z n.done (j ∷ []))) v

-- A new status for a job that stood in a queue once, and leaves it in the same section.
set_at_cases :
    (j z : ℕ) (s : JobStatus) (status : Statuses) → (set_at j s status z ≡ status z) ⊎ (z ≡ j)
set_at_cases j z s status = ground (arith, ==_iff z j)

pub fail_launch-Removes :
    (j : ℕ) (m : Manager) → Inv m → elem j m.launching ≡ true → Removes j m (fail_launch j m)
fail_launch-Removes j m v h = record {
  moves = record {
    graph_same = refl;
    todo_le = λ z. omega arith;
    advanced_le = λ z. omega (arith, count-remove j z m.launching h);
    changed = λ z. ground (
      arith,
      ap (λ f. f z) (mark-failed j m.status),
      ==_iff z j,
      count-remove j z m.launching h,
      count-pos_of_elem j m.launching h,
      v.uncompleted z,
      v.once z,
    );
  };
  totals = λ z. omega (arith, count-remove j z m.launching h);
}

-- The section of a launch that failed.
pub launch_failed-Section :
    (j : ℕ) (m : Manager) → Inv m → elem j m.launching ≡ true → Section m (launch_failed j m)
unfolding launch_failed
launch_failed-Section j m v h =
    let gone = fail_launch-Removes j m v h in
    let v1 = Removes-Inv gone v in
    let children = move_children-Keeps j (fail_launch j m) v1 in
    let exit =
      exit_at_quit_count-Keeps (move_children_to_skipped j (fail_launch j m))
        (Keeps-Inv children v1) in
    Removes-file_done v (Removes-Keeps gone (Keeps-trans children exit))

pub launch_cancelled-Section :
    (j : ℕ) (m : Manager) → Inv m → elem j m.launching ≡ true → Section m (launch_cancelled j m)
unfolding launch_cancelled
launch_cancelled-Section j m v h =
    let u : completed (m.status j) ≡ false =
      v.uncompleted j (omega (arith, count-pos_of_elem j m.launching h)) in
    let marked : mark_uncompleted j m.status ≡ set_at j skipped m.status =
      rw u (mark-skipped j m.status u) in
    Moves-Section
      (record {
        graph_same = refl;
        todo_le = λ z. omega arith;
        advanced_le = λ z. omega (arith, count-remove j z m.launching h);
        changed = λ z. ground (
          arith,
          ap (λ f. f z) marked,
          ==_iff z j,
          count-remove j z m.launching h,
          count-pos_of_elem j m.launching h,
          v.uncompleted z,
          v.once z,
        );
      })
      (λ z. omega (arith, count-remove j z m.launching h, count-append z m.skipped (j ∷ []))) v

-- A runner that was launched while the scheduler still ran joins the active jobs.
pub launched-Section :
    (stopped : Bool) (j : ℕ) (m : Manager)
    → Inv m
    → elem j m.launching ≡ true
    → m.thread_active ≡ true
    → Section m (launched stopped j m)
unfolding launched
launched-Section stopped j m v h a =
    Moves-Section
      (record {
        graph_same = rw (a, launched);
        todo_le = λ z. rw (a, launched) (omega arith);
        advanced_le = λ z.
            rw (a, launched)
              (omega (arith, count-remove j z m.launching h, count-append z m.active (j ∷ [])));
        changed = λ z. rw (a, launched) (inl refl);
      })
      (λ z.
        rw (a, launched)
          (omega (arith, count-remove j z m.launching h, count-append z m.active (j ∷ []))))
      v

-- One that was launched after the stop is in no queue any more.
pub launched-Removes :
    (stopped : Bool) (j : ℕ) (m : Manager)
    → elem j m.launching ≡ true
    → m.thread_active ≡ false
    → Removes j m (launched stopped j m)
unfolding launched
launched-Removes true j m h a = record {
  moves = record {
    graph_same = rw (a, launched);
    todo_le = λ z. rw (a, launched) (omega arith);
    advanced_le = λ z. rw (a, launched) (omega (arith, count-remove j z m.launching h));
    changed = λ z. rw (a, launched) (inl refl);
  };
  totals = λ z. rw (a, launched) (omega (arith, count-remove j z m.launching h));
}
launched-Removes false j m h a = record {
  moves = record {
    graph_same = rw (a, launched);
    todo_le = λ z. rw (a, launched) (omega arith);
    advanced_le = λ z. rw (a, launched) (omega (arith, count-remove j z m.launching h));
    changed = λ z. rw (a, launched) (inl refl);
  };
  totals = λ z. rw (a, launched) (omega (arith, count-remove j z m.launching h));
}
