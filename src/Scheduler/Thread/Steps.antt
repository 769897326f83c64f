-- ===== src/Scheduler/Thread/Steps.antt =====
-- Every step of the scheduler thread and every call of another thread keeps what `Consistent` says,
-- loses no job and leaves completed jobs alone.
pub mod Launching
pub mod Polling
use rules_verilog.Base.{
  ℕ, ◌+◌, ◌≡◌, inl, inr, refl, ◌∙◌, sym, subst, ap, Bool, true, false, List, [], ◌∷◌, ◌++◌, elem,
  remove, arith, one_if, ◌==◌, Bool-cases, ==_refl, append-nil, if◌then◌else◌, length-append,
}
use rules_verilog.Status.{completed}
use rules_verilog.Scheduler.State.{Manager}
use rules_verilog.Scheduler.Promote.{move_todo_to_ready}
use rules_verilog.Scheduler.Launch.{
  Taken, launched, launch_failed, launch_cancelled, take_ready_job, running_jobs, is_parallel,
}
use rules_verilog.Scheduler.Finish.{PostRun, complete_job, start_finalizing}
use rules_verilog.Scheduler.Invariant.{Inv, total, changed-keeps}
use rules_verilog.Scheduler.Invariant.Promoting.{
  Section, Section-trans, IsPassed, move_todo_to_ready-IsPassed, passed_manager, passed-Section,
  TakenCases, none_taken, mode_raised, one_taken, take_ready_job_cases, taken-Section,
}
use rules_verilog.Scheduler.Invariant.Finishing.{
  Removes-Inv, launch_failed-Section, launch_cancelled-Section, launched-Section, launched-Removes,
}
use rules_verilog.Scheduler.Invariant.Completing.{
  complete_job-Completes, start_finalizing-Section, record_incomplete_shutdown-Section,
}
use rules_verilog.Scheduler.Invariant.Controls.{IsNew}
use rules_verilog.Scheduler.Invariant.Fixed.{
  Fixed, launched_active, launched_inactive, launch_failed-Fixed, record_incomplete_shutdown-Fixed,
  complete_job-Fixed,
}
use rules_verilog.Scheduler.Thread.{
  Place, at_loop, polling, stopped, in_launch, in_complete, System, Event, launch_ends, poll_ends,
  call_add, LaunchEnd, started, none_done, exited, unreaped, run_loop_top, end_poll,
  completed_system, promoted_system, taken_system,
}
use rules_verilog.Scheduler.Thread.Places.{
  Consistent, launching_of, finalizing_of, WithinLimit, WithinLimit-same, WithinLimit-remove,
  can_launch-WithinLimit, alone, together, all-append_left,
}

-- What other code has to respect: it adds only new jobs, and a poll names a job that is active.
abbrev pub Allowed : Event → Manager → Type 0
Allowed (call_add j) m = IsNew j m
Allowed (poll_ends (unreaped j)) m = elem j m.active ≡ true
Allowed _ m = Unit

-- The jobs that an event brings to the queues, and the one that a launch behind a stop takes out.
abbrev pub arrives : Event → ℕ → ℕ
arrives (call_add j) z = one_if (z == j)
arrives _ z = 0

abbrev pub launch_departs : Place → LaunchEnd → Manager → ℕ → ℕ
launch_departs (in_launch j) (started _) m z = if m.thread_active then 0 else one_if (z == j)
launch_departs _ _ m z = 0

abbrev pub departs : Event → Place → Manager → ℕ → ℕ
departs (launch_ends l) p m z = launch_departs p l m z
departs _ p m z = 0

pub record Stepped (m : Manager) (s : System) (arriving departing : ℕ → ℕ) : Type 0 where
  pub consistent : Consistent s.place s.manager
  pub totals : (z : ℕ) → total z s.manager + departing z ≡ total z m + arriving z
  pub stable : (z : ℕ) → completed (m.status z) ≡ true → s.manager.status z ≡ m.status z
  pub graph_same : s.manager.graph ≡ m.graph

abbrev pub none_z : ℕ → ℕ
none_z z = 0

-- A section that leaves the running jobs alone.
pub quiet :
    {p : Place} {m n : Manager}
    → Consistent p m
    → Section m n
    → Fixed m n m.launching m.active m.finalizing
    → Stepped m (record { place = p; manager = n }) none_z none_z
quiet {p} {m} {n} c s f = record {
  consistent = record {
    inv = s.inv;
    launching_at = f.launching_is ∙ c.launching_at;
    finalizing_at = f.finalizing_is ∙ c.finalizing_at;
    within =
        rw (f.active_is, f.launching_is)
          (WithinLimit-same (running_jobs m) f.limit_same f.graph_same c.within);
  };
  totals = λ z. omega (arith, s.totals z);
  stable = s.stable;
  graph_same = s.graph_same;
}

pub unchanged : (m : Manager) → Fixed m m m.launching m.active m.finalizing
unchanged m = record {
  launching_is = refl;
  active_is = refl;
  finalizing_is = refl;
  limit_same = refl;
  graph_same = refl;
}

-- A section at a place, with the running jobs after it.
pub moved :
    {p : Place} {m n : Manager} (ac : List ℕ)
    → Section m n
    → Fixed m n (launching_of p) ac (finalizing_of p)
    → WithinLimit m (ac ++ launching_of p)
    → Stepped m (record { place = p; manager = n }) none_z none_z
moved {p} {m} {n} ac s f w = record {
  consistent = record {
    inv = s.inv;
    launching_at = f.launching_is;
    finalizing_at = f.finalizing_is;
    within =
        rw (f.active_is, f.launching_is)
          (WithinLimit-same (ac ++ launching_of p) f.limit_same f.graph_same w);
  };
  totals = λ z. omega (arith, s.totals z);
  stable = s.stable;
  graph_same = s.graph_same;
}

pub Section-refl : (m : Manager) → Inv m → Section m m
Section-refl m v = record { inv = v; totals = λ z. refl; stable = λ z c. refl; graph_same = refl }

taken-Stepped :
    (m n : Manager) (t : Taken)
    → Section m n
    → Fixed m n [] m.active []
    → WithinLimit m (m.active ++ [])
    → TakenCases n t
    → Stepped m (taken_system n t) none_z none_z
taken-Stepped m n t s f w none_taken = moved m.active s f w
taken-Stepped m n t s f w mode_raised = moved m.active s f w
taken-Stepped m n t s f w (one_taken j rest unpaused fits counts) =
    moved m.active (Section-trans s (taken-Section n j rest s.inv counts))
      (record {
        launching_is = ap (λ l. l ++ (j ∷ [])) f.launching_is;
        active_is = f.active_is;
        finalizing_is = f.finalizing_is;
        limit_same = f.limit_same;
        graph_same = f.graph_same;
      })
      (WithinLimit-same (m.active ++ (j ∷ [])) (sym f.limit_same) (sym f.graph_same) (
        subst (λ l. WithinLimit n l)
          (ap (λ l. (l ++ n.launching) ++ (j ∷ [])) f.active_is
            ∙ ap (λ l. (m.active ++ l) ++ (j ∷ [])) f.launching_is
            ∙ ap (λ l. l ++ (j ∷ [])) (append-nil m.active))
          (can_launch-WithinLimit n j fits)))

pub within_loop :
    {m : Manager} (p : Place)
    → launching_of p ≡ []
    → Consistent p m
    → WithinLimit m (m.active ++ [])
within_loop {m} p e c = subst (λ l. WithinLimit m (m.active ++ l)) (c.launching_at ∙ e) c.within

pub loop_top-Stepped :
    (m : Manager) → Consistent at_loop m → Stepped m (run_loop_top m) none_z none_z
unfolding run_loop_top
loop_top-Stepped m c = split m.thread_active
  where
    fixed : Fixed m m [] m.active []
    fixed = record {
      launching_is = c.launching_at;
      active_is = refl;
      finalizing_is = c.finalizing_at;
      limit_same = refl;
      graph_same = refl;
    }

    p : IsPassed m
    p = move_todo_to_ready-IsPassed m c.inv

    split :
        (b : Bool)
        → Stepped m
            (if b
              then promoted_system (move_todo_to_ready m)
              else record { place = stopped; manager = m })
            none_z
            none_z
    split false = moved m.active (Section-refl m c.inv) fixed (within_loop at_loop refl c)
    split true =
        subst (λ r. Stepped m (promoted_system r) none_z none_z) (sym p.ends)
          (taken-Stepped m (passed_manager m p) (take_ready_job (passed_manager m p))
            (passed-Section m c.inv p)
            (record {
              launching_is = fixed.launching_is;
              active_is = refl;
              finalizing_is = fixed.finalizing_is;
              limit_same = refl;
              graph_same = refl;
            })
            (within_loop at_loop refl c) (take_ready_job_cases (passed_manager m p)))

pub remove_own : (j : ℕ) → remove j (j ∷ []) ≡ []
remove_own j = ground (arith, ==_refl j)

pub elem_own : (j : ℕ) (l : List ℕ) → l ≡ j ∷ [] → elem j l ≡ true
elem_own j l e = rw e (ground (arith, ==_refl j))
