-- ===== src/Scheduler/Invariant/Controls.antt =====
-- The calls of other threads keep the invariant.
use rules_verilog.Base.{
  ℕ, ◌+◌, ◌≡◌, inl, refl, Bool, true, false, not, ◌&&◌, [], ◌∷◌, ◌++◌, count-append, arith, one_if,
  ◌==◌, ==_iff, if◌then◌else◌,
}
use rules_verilog.Status.{completed}
use rules_verilog.Queue.{insort_right}
use rules_verilog.Queue.Counting.{count-insort_right}
use rules_verilog.Scheduler.State.{Manager}
use rules_verilog.Scheduler.Control.{add_job, pause, resume, stop, kill}
use rules_verilog.Scheduler.Invariant.{Inv, total}
use rules_verilog.Scheduler.Invariant.Exits.{empty_queues-Keeps}
use rules_verilog.Scheduler.Invariant.Promoting.{Section, Moves-Section}

-- A job that stands in no queue, and has no final status.
pub record IsNew (j : ℕ) (m : Manager) : Type 0 where
  pub absent : total j m ≡ 0
  pub uncompleted : completed (m.status j) ≡ false

-- What adding a job keeps.
pub record Adds (j : ℕ) (m n : Manager) : Type 0 where
  pub inv : Inv n
  pub totals : (z : ℕ) → total z n ≡ total z m + one_if (z == j)
  pub status_same : n.status ≡ m.status
  pub graph_same : n.graph ≡ m.graph
  pub active_same : n.active ≡ m.active
  pub launching_same : n.launching ≡ m.launching
  pub finalizing_same : n.finalizing ≡ m.finalizing
  pub limit_same : n.active_job_limit ≡ m.active_job_limit

queued-Adds :
    (j : ℕ) (m : Manager)
    → Inv m
    → IsNew j m
    → Adds j m (record m { todo = insort_right m.graph.priority j m.todo })
queued-Adds j m v w = record {
  inv = record {
    once = λ z.
        ground
          (arith, count-insort_right m.graph.priority z j m.todo, v.once z, w.absent, ==_iff z j);
    uncompleted = λ z h. ground (
      arith,
      count-insort_right m.graph.priority z j m.todo,
      v.uncompleted z,
      w.uncompleted,
      ==_iff z j,
    );
    succeeded = v.succeeded;
  };
  totals = λ z. omega (arith, count-insort_right m.graph.priority z j m.todo);
  status_same = refl;
  graph_same = refl;
  active_same = refl;
  launching_same = refl;
  finalizing_same = refl;
  limit_same = refl;
}

turned_away-Adds :
    (j : ℕ) (m : Manager)
    → Inv m
    → IsNew j m
    → Adds j m (record m { skipped = m.skipped ++ (j ∷ []) })
turned_away-Adds j m v w = record {
  inv = record {
    once = λ z. ground (arith, count-append z m.skipped (j ∷ []), v.once z, w.absent, ==_iff z j);
    uncompleted = v.uncompleted;
    succeeded = v.succeeded;
  };
  totals = λ z. omega (arith, count-append z m.skipped (j ∷ []));
  status_same = refl;
  graph_same = refl;
  active_same = refl;
  launching_same = refl;
  finalizing_same = refl;
  limit_same = refl;
}

pub add_job-Adds : (j : ℕ) (m : Manager) → Inv m → IsNew j m → Adds j m (add_job j m)
unfolding add_job
add_job-Adds j m v w = split (not m.done_grace_exit && m.thread_active)
  where
    split :
        (b : Bool)
        → Adds j m (
            if b
            then record m { todo = insort_right m.graph.priority j m.todo }
            else record m { skipped = m.skipped ++ (j ∷ []) })
    split true = queued-Adds j m v w
    split false = turned_away-Adds j m v w

pub kill-Section : (m : Manager) → Inv m → Section m (kill m)
unfolding kill
kill-Section m v =
    let k = empty_queues-Keeps m v in
    Moves-Section
      (record {
        graph_same = refl;
        todo_le = k.moves.todo_le;
        advanced_le = k.moves.advanced_le;
        changed = k.moves.changed;
      })
      k.totals v

-- A change of a flag.
pub flags-Section :
    (m : Manager) (paused thread_active : Bool)
    → Inv m
    → Section m (record m { paused = paused; thread_active = thread_active })
flags-Section m paused thread_active v =
    Moves-Section
      (record {
        graph_same = refl;
        todo_le = λ z. omega arith;
        advanced_le = λ z. omega arith;
        changed = λ z. inl refl;
      })
      (λ z. refl) v

pub pause-Section : (m : Manager) → Inv m → Section m (pause m)
unfolding pause
pause-Section m v = split m.thread_active
  where
    split : (b : Bool) → Section m (if b then record m { paused = true } else m)
    split true = flags-Section m true m.thread_active v
    split false = flags-Section m m.paused m.thread_active v

pub resume-Section : (m : Manager) → Inv m → Section m (resume m)
unfolding resume
resume-Section m v = flags-Section m false m.thread_active v

pub stop-Section : (m : Manager) → Inv m → Section m (stop m)
unfolding stop
stop-Section m v = flags-Section m m.paused false v
