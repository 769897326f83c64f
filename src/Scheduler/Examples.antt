-- ===== src/Scheduler/Examples.antt =====
-- Runs and instances for the scheduler: two jobs, the second of which depends on the first.
use mathlib.Core.List.{Sublistᴰ}
use rules_verilog.Base.{
  ℕ, zero, suc, ◌<◌, ◌≡◌, none, ◌⊎◌, inl, refl, true, false, List, [], ◌∷◌, count, arith, elem,
  ==_iff,
}
use rules_verilog.Base.Int.{pos}
use rules_verilog.Queue.{insort_right}
use rules_verilog.Status.{update, not_started, passed, failed, skipped, completed}
use rules_verilog.Scheduler.State.{Graph, Manager, Statuses, assign, parallel, fresh}
use rules_verilog.Scheduler.Promote.{judge}
use rules_verilog.Scheduler.Launch.{can_launch}
use rules_verilog.Scheduler.Waiting.{IsWaiting}
use rules_verilog.Scheduler.Skip.{move_children_to_skipped}
use rules_verilog.Scheduler.Skip.Closed.{HangsBelow, move_children_to_skipped_exact}
use rules_verilog.Scheduler.Invariant.{total, unfinished}
use rules_verilog.Scheduler.Control.{wait_returns}
use rules_verilog.Scheduler.Thread.{
  System, at_loop, polling, step, run_loop_top, loop_top, launch_ends, poll_ends, post_run_ends,
  call_add, started, exited,
}
use rules_verilog.Simmer.Snapshot.{active_run_snapshot}
use rules_verilog.Scheduler.Thread.Places.{Consistent, alone}
use rules_verilog.Scheduler.Thread.Steps.{Stepped, arrives, departs}
use rules_verilog.Scheduler.Thread.Reachable.{
  Reaches, here, next, step-Stepped, Reaches-Consistent, Reaches-stable, fresh-Consistent,
}
use rules_verilog.Scheduler.Thread.Sleep.{run_loop_top-sleeps}

abbrev none_below : ℕ → List ℕ
none_below zero = []
none_below (suc zero) = 0 ∷ []
none_below (suc (suc j)) = []

abbrev above : ℕ → List ℕ
above zero = 1 ∷ []
above (suc j) = []

-- Job 1 depends on job 0.
abbrev pair : Graph
pair = record { priority = λ j. pos j; mode = λ j. parallel; deps = none_below; children = above }

abbrev at_start : System
at_start = record { place = at_loop; manager = fresh pair (λ j. not_started) 2 5 }

start_Consistent : Consistent at_loop (fresh pair (λ j. not_started) 2 5)
start_Consistent = fresh-Consistent pair (λ j. not_started) 2 5

abbrev added : System
added = step (call_add 1) (step (call_add 0) at_start)

-- Both jobs are added, and the first is taken, started, polled and finished.
abbrev finished_first : System
finished_first = step (post_run_ends (record { assigns = passed ∷ []; raises = false })) (
    step (poll_ends (exited 0))
      (step loop_top (step (launch_ends (started true)) (step loop_top added))))

both_run :
    (finished_first.manager.done ≡ 0 ∷ [])
    × (finished_first.manager.ready ≡ 1 ∷ [])
    × (finished_first.manager.status 0 ≡ passed)
unfolding step insort_right judge can_launch assign update
both_run = (refl, refl, refl)

first_added : Reaches at_start (step (call_add 0) at_start)
first_added = next (call_add 0) here (record { absent = refl; uncompleted = refl })

one_absent : total 1 (step (call_add 0) at_start).manager ≡ 0
unfolding step insort_right
one_absent = refl

one_waits : completed ((step (call_add 0) at_start).manager.status 1) ≡ false
unfolding step
one_waits = refl

both_added : Reaches at_start added
both_added = next (call_add 1) first_added (record { absent = one_absent; uncompleted = one_waits })

first_finished : Reaches at_start finished_first
first_finished =
    next (post_run_ends (record { assigns = passed ∷ []; raises = false }))
      (next (poll_ends (exited 0))
        (next loop_top (next (launch_ends (started true)) (next loop_top both_added tt) tt) tt) tt)
      tt

Reaches-Consistent_example : Consistent finished_first.place finished_first.manager
Reaches-Consistent_example = Reaches-Consistent first_finished start_Consistent

step-Stepped_example :
    Stepped added.manager
      (step loop_top added)
      (arrives loop_top)
      (departs loop_top added.place added.manager)
step-Stepped_example =
    step-Stepped loop_top added (Reaches-Consistent both_added start_Consistent) tt

first_passed : completed (finished_first.manager.status 0) ≡ true
unfolding step insort_right judge can_launch assign update
first_passed = refl

Reaches-stable_example :
    (step loop_top finished_first).manager.status 0 ≡ finished_first.manager.status 0
Reaches-stable_example =
    Reaches-stable 0 (next loop_top here tt) (Reaches-Consistent first_finished start_Consistent)
      first_passed

-- Two jobs wait, and nothing runs.
abbrev waiting : Manager
waiting = record (fresh pair (λ j. not_started) 2 5) { todo = 0 ∷ 1 ∷ [] }

jobs-IsWaiting : IsWaiting (λ j. not_started) (0 ∷ 1 ∷ [])
jobs-IsWaiting = record {
  once = λ z. ground (arith, ==_iff z 0, ==_iff z 1);
  uncompleted = λ z h. refl;
}

move_children_to_skipped_exact_example :
    Sublistᴰ (move_children_to_skipped 0 waiting).todo (0 ∷ 1 ∷ [])
    × ((HangsBelow pair (0 ∷ 1 ∷ []) (1 ∷ []) 1
          × (count 1 (move_children_to_skipped 0 waiting).todo ≡ 0)
          × (count 1 (move_children_to_skipped 0 waiting).skipped ≡ 1)
          × ((move_children_to_skipped 0 waiting).status 1 ≡ skipped))
        ⊎ ((¬ HangsBelow pair (0 ∷ 1 ∷ []) (1 ∷ []) 1)
            × (count 1 (move_children_to_skipped 0 waiting).todo ≡ 1)
            × (count 1 (move_children_to_skipped 0 waiting).skipped ≡ 0)
            × ((move_children_to_skipped 0 waiting).status 1 ≡ not_started)))
move_children_to_skipped_exact_example =
    move_children_to_skipped_exact 0 1 waiting jobs-IsWaiting (omega arith)

abbrev failed_zero : Statuses
failed_zero zero = failed
failed_zero (suc j) = not_started

-- Job 1 waits although job 0 has failed, and nothing runs.
abbrev left_over : Manager
left_over = record (fresh pair failed_zero 2 5) { todo = 1 ∷ [] }

left_over-Consistent : Consistent at_loop left_over
left_over-Consistent = record {
  inv = record {
    once = λ z. ground (arith, ==_iff z 1);
    uncompleted = waits;
    succeeded = λ z h. absurd (omega arith);
  };
  launching_at = refl;
  finalizing_at = refl;
  within = alone (omega arith);
}
  where
    waits : (z : ℕ) → 0 < unfinished z left_over → completed (failed_zero z) ≡ false
    waits zero h = absurd (omega arith)
    waits (suc j) h = refl

left_over_polls : (run_loop_top left_over).place ≡ polling
unfolding run_loop_top judge can_launch assign update
left_over_polls = refl

left_over_ordered : (d : ℕ) → elem d (none_below 1) ≡ true → elem d (1 ∷ []) ≡ false
left_over_ordered d h = ground (arith, ==_iff d 0, ==_iff d 1)

left_over_closed :
    (z d : ℕ)
    → elem z (1 ∷ []) ≡ true
    → elem d (none_below z) ≡ true
    → (completed (failed_zero d) ≡ true) ⊎ ((elem d (1 ∷ []) ≡ true) ⊎ (0 < count d []))
left_over_closed (suc zero) zero a b = inl refl
left_over_closed (suc zero) (suc d) a b = absurd (ground arith)
left_over_closed zero d a b = absurd (ground arith)
left_over_closed (suc (suc z)) d a b = absurd (ground arith)

run_loop_top-sleeps_example : wait_returns (run_loop_top left_over).manager ≡ true
run_loop_top-sleeps_example =
    run_loop_top-sleeps left_over left_over-Consistent refl refl (omega arith) refl
      (left_over_ordered, tt) left_over_closed left_over_polls

-- A snapshot while job 0 ends: it is active still, and its status is assigned already.
assigned_early :
    (active_run_snapshot
      (record (fresh pair (λ j. not_started) 2 5) { finalizing = 0 ∷ [] })
      (λ j. failed)
      (0 ∷ [])
      1
      false
      (λ j. false)
      (λ j. none)
      []
      none).queued_tests
    ≡ 0
unfolding active_run_snapshot
assigned_early = refl
