-- ===== src/Scheduler/Thread/Sleep.antt =====
-- The scheduler thread goes to sleep without a time limit only when there is nothing left to do.
use rules_verilog.Base.{
  ℕ, ◌<◌, ◌≡◌, ◌≢◌, ◌⊎◌, refl, sym, ap, subst, Bool, true, false, Option, none, some, List, [], ◌∷◌,
  length, all, any, elem, count, ltb, ◌==◌, ==_iff, arith, if◌then◌else◌, not,
}
use rules_verilog.Status.{completed}
use rules_verilog.Queue.Counting.{count-insort_right}
use rules_verilog.Scheduler.State.{Manager, Graph, Statuses, Mode, exclusive, parallel, unknown}
use rules_verilog.Scheduler.Promote.{judge, wait, move_todo_to_ready}
use rules_verilog.Scheduler.Promote.Removal.{Pass, stop, stay, go, drop_out}
use rules_verilog.Scheduler.Promote.Conserved.{Pass-counts, assigned, rejected-IsWaiting}
use rules_verilog.Scheduler.Waiting.{IsWaiting}
use rules_verilog.Scheduler.Launch.{
  can_launch, running_jobs, is_parallel, Found, nothing, mode_error, found, put_back, find_ready,
  no_job, take_found, take_ready_job,
}
use rules_verilog.Scheduler.Control.{wait_returns}
use rules_verilog.Scheduler.Invariant.{Inv-IsWaiting}
use rules_verilog.Scheduler.Invariant.Promoting.{move_todo_to_ready-IsPassed, passed_manager}
use rules_verilog.Scheduler.Thread.{
  at_loop, polling, stopped, run_loop_top, promoted_system, taken_system,
}
use rules_verilog.Scheduler.Thread.Places.{Consistent}

-- No job of the queue depends on itself or on a job behind it.
abbrev pub IsOrdered : Graph → List ℕ → Type 0
IsOrdered g [] = Unit
IsOrdered g (j ∷ js) =
    ((d : ℕ) → elem d (g.deps j) ≡ true → elem d (j ∷ js) ≡ false) × IsOrdered g js

-- Each dependency of a waiting job is completed, or waits as well, or is ready.
abbrev pub IsClosed : Graph → List ℕ → Statuses → List ℕ → Type 0
IsClosed g js status ready =
    (z d : ℕ)
    → elem z js ≡ true
    → elem d (g.deps z) ≡ true
    → (completed (status d) ≡ true) ⊎ ((elem d js ≡ true) ⊎ (0 < count d ready))

all-completed :
    (status : Statuses) (ds : List ℕ)
    → ((d : ℕ) → elem d ds ≡ true → completed (status d) ≡ true)
    → all (λ d. completed (status d)) ds ≡ true
all-completed status [] h = refl
all-completed status (d ∷ ds) h =
    ground (arith, h d, all-completed status ds (λ e k. h e (ground arith)))

judge-ne-wait :
    (status : Statuses) (ds : List ℕ)
    → all (λ d. completed (status d)) ds ≡ true
    → judge status ds ≢ wait
unfolding judge
judge-ne-wait status [] h e = cc
judge-ne-wait status (d ∷ ds) h e = ground arith

-- A pass that leaves no job ready leaves no job waiting.
Pass-empties :
    (g : Graph) {js rd sk rd' sk' kept : List ℕ} {st st' : Statuses}
    → IsWaiting st js
    → IsOrdered g js
    → IsClosed g js st rd
    → ((z : ℕ) → count z rd' ≡ 0)
    → Pass g js st rd sk st' rd' sk' kept
    → kept ≡ []
Pass-empties g w o k idle stop = refl
Pass-empties g w o k idle (stay {j = j} {st = st} h p) = absurd (
    judge-ne-wait st (g.deps j)
      (all-completed st (g.deps j) (λ d e.
        ground (arith, k j d (ground (arith, ==_iff j j)) e, o.0 d e, idle d, Pass-counts g d p)))
      h)
Pass-empties g w o k idle (go {j = j} {rd = rd} h p) =
    absurd
      (ground (arith, idle j, Pass-counts g j p, count-insort_right g.priority j j rd, ==_iff j j))
Pass-empties g w o k idle (drop_out {j = j} {js = js} {st = st} {mid = mid} h e p) =
    Pass-empties g (rejected-IsWaiting g w e) o.1
      (λ z d a b. ground (arith, k z d (ground arith) b, ap (λ f. f d) (assigned w e), ==_iff d j))
      idle p

-- With no running job, every ready job of a known mode may be launched.
can_launch_first :
    (m : Manager) (j : ℕ)
    → running_jobs m ≡ []
    → 0 < m.active_job_limit
    → can_launch m j ≢ some false
unfolding can_launch
can_launch_first m j e l =
    subst
      (λ r.
        (elim (m.graph.mode j) [
          | exclusive ↦ some (length r == 0)
          | parallel ↦
              if any (λ a. not (is_parallel (m.graph.mode a))) r
              then some false
              else some (ltb (length r) m.active_job_limit)
          | unknown ↦ none
        ])
        ≢ some false)
      (sym e) (split (m.graph.mode j))
  where
    split :
        (mode : Mode)
        → (elim mode [
          | exclusive ↦ some true
          | parallel ↦ some (ltb 0 m.active_job_limit)
          | unknown ↦ none
        ])
          ≢ some false
    split exclusive h = ground arith
    split parallel h = ground arith
    split unknown h = cc

find_ready-nothing :
    (m : Manager) (js : List ℕ)
    → running_jobs m ≡ []
    → 0 < m.active_job_limit
    → find_ready m js ≡ nothing
    → js ≡ []
unfolding find_ready
find_ready-nothing m [] e l = λ h. refl
find_ready-nothing m (i ∷ js) e l = split (can_launch m i) (can_launch_first m i e l)
  where
    split :
        (o : Option Bool)
        → o ≢ some false
        → (elim o [
          | none ↦ mode_error
          | some true ↦ found i js
          | some false ↦ put_back i (find_ready m js)
        ])
          ≡ nothing
        → (i ∷ js) ≡ []
    split none n h = cc
    split (some true) n h = cc
    split (some false) n h = absurd (n refl)

taken_polling :
    (m : Manager)
    → m.paused ≡ false
    → running_jobs m ≡ []
    → 0 < m.active_job_limit
    → (taken_system m (take_ready_job m)).place ≡ polling
    → (m.ready ≡ []) × ((taken_system m (take_ready_job m)).manager ≡ m)
unfolding take_ready_job
taken_polling m u e l = split m.paused u (find_ready m m.ready) (find_ready-nothing m m.ready e l)
  where
    split :
        (b : Bool)
        → b ≡ false
        → (f : Found) → (f ≡ nothing → m.ready ≡ [])
        → (taken_system m (if b then no_job else take_found m f)).place ≡ polling
        → (m.ready ≡ []) × ((taken_system m (if b then no_job else take_found m f)).manager ≡ m)
    split true u f k h = cc
    split false u nothing k h = (k refl, refl)
    split false u mode_error k h = cc
    split false u (found j rest) k h = cc

loop_body_sleeps :
    (m : Manager)
    → Consistent at_loop m
    → m.paused ≡ false
    → 0 < m.active_job_limit
    → m.active ≡ []
    → IsOrdered m.graph m.todo
    → IsClosed m.graph m.todo m.status m.ready
    → (promoted_system (move_todo_to_ready m)).place ≡ polling
    → wait_returns (promoted_system (move_todo_to_ready m)).manager ≡ true
loop_body_sleeps m c u l idle o k =
    let p = move_todo_to_ready-IsPassed m c.inv in
    let n = passed_manager m p in
    subst
      (λ r. (promoted_system r).place ≡ polling → wait_returns (promoted_system r).manager ≡ true)
      (sym p.ends)
      (λ h.
        let t = taken_polling n u (rw (idle, c.launching_at) refl) l h in
        let empty =
          Pass-empties m.graph (Inv-IsWaiting m c.inv) o k (λ z. ap (count z) t.0) p.pass in
        subst (λ q. wait_returns q ≡ true) (sym t.1)
          (unfold wait_returns in rw (empty, t.0, c.launching_at, idle, c.finalizing_at) refl))

-- At the top of the loop, with no active job, not paused and not stopped: if the queue keeps
-- dependencies in front of the jobs that need them, and all of them are completed, waiting or ready,
-- then a pass that takes no job to launch leaves no unfinished job at all, so the untimed wait that
-- follows it does not strand any.
pub run_loop_top-sleeps :
    (m : Manager)
    → Consistent at_loop m
    → m.thread_active ≡ true
    → m.paused ≡ false
    → 0 < m.active_job_limit
    → m.active ≡ []
    → IsOrdered m.graph m.todo
    → IsClosed m.graph m.todo m.status m.ready
    → (run_loop_top m).place ≡ polling
    → wait_returns (run_loop_top m).manager ≡ true
unfolding run_loop_top
run_loop_top-sleeps m c on u l idle o k =
    subst
      (λ b.
        (if b
            then promoted_system (move_todo_to_ready m)
            else record { place = stopped; manager = m }).place
          ≡ polling
        → wait_returns
            (if b
              then promoted_system (move_todo_to_ready m)
              else record { place = stopped; manager = m }).manager
          ≡ true)
      (sym on) (loop_body_sleeps m c u l idle o k)
