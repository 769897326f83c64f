-- ===== src/Scheduler/Thread/Reachable.antt =====
-- The states that the scheduler can reach, through any interleaving of its thread with the calls of
-- other threads.
use rules_verilog.Base.{ℕ, ◌≡◌, refl, ◌∙◌, ap, true, arith}
use rules_verilog.Status.{completed}
use rules_verilog.Scheduler.State.{Manager, Graph, Statuses, fresh}
use rules_verilog.Scheduler.Launch.{running_jobs}
use rules_verilog.Scheduler.Control.{add_job, pause, resume, stop, kill}
use rules_verilog.Scheduler.Invariant.Controls.{
  IsNew, add_job-Adds, kill-Section, pause-Section, resume-Section, stop-Section,
}
use rules_verilog.Scheduler.Invariant.Fixed.{Fixed}
use rules_verilog.Scheduler.Thread.{
  Place, at_loop, polling, stopped, crashed, in_launch, in_complete, System, Event, loop_top,
  launch_ends, poll_ends, post_run_ends, call_add, call_pause, call_resume, call_stop, call_kill,
  started, cancelled, broken, none_done, exited, unreaped, step, end_launch, thread_step,
}
use rules_verilog.Scheduler.Thread.Steps.{
  Allowed, arrives, departs, Stepped, none_z, quiet, loop_top-Stepped,
}
use rules_verilog.Scheduler.Thread.Steps.Launching.{
  cancelled-Stepped, failed-Stepped, launched-Stepped,
}
use rules_verilog.Scheduler.Thread.Steps.Polling.{
  completed-Stepped, exited-Stepped, none_done-Stepped, unreaped-Stepped,
}
use rules_verilog.Scheduler.Thread.Places.{Consistent, WithinLimit-same, alone}

pause-Fixed : (m : Manager) → Fixed m (pause m) m.launching m.active m.finalizing
unfolding pause
pause-Fixed m = record {
  launching_is = ground arith;
  active_is = ground arith;
  finalizing_is = ground arith;
  limit_same = ground arith;
  graph_same = ground arith;
}

resume-Fixed : (m : Manager) → Fixed m (resume m) m.launching m.active m.finalizing
unfolding resume
resume-Fixed m = record {
  launching_is = refl;
  active_is = refl;
  finalizing_is = refl;
  limit_same = refl;
  graph_same = refl;
}

stop-Fixed : (m : Manager) → Fixed m (stop m) m.launching m.active m.finalizing
unfolding stop
stop-Fixed m = record {
  launching_is = refl;
  active_is = refl;
  finalizing_is = refl;
  limit_same = refl;
  graph_same = refl;
}

kill-Fixed : (m : Manager) → Fixed m (kill m) m.launching m.active m.finalizing
unfolding kill
kill-Fixed m = record {
  launching_is = refl;
  active_is = refl;
  finalizing_is = refl;
  limit_same = refl;
  graph_same = refl;
}

added-Stepped :
    (p : Place) (j : ℕ) (m : Manager)
    → Consistent p m
    → IsNew j m
    → Stepped m (record { place = p; manager = add_job j m }) (arrives (call_add j)) none_z
added-Stepped p j m c w =
    let a = add_job-Adds j m c.inv w in
    record {
      consistent = record {
        inv = a.inv;
        launching_at = a.launching_same ∙ c.launching_at;
        finalizing_at = a.finalizing_same ∙ c.finalizing_at;
        within =
            rw (a.active_same, a.launching_same)
              (WithinLimit-same (running_jobs m) a.limit_same a.graph_same c.within);
      };
      totals = λ z. omega (arith, a.totals z);
      stable = λ z h. ap (λ f. f z) a.status_same;
      graph_same = a.graph_same;
    }

idle-Stepped :
    (p : Place) (m : Manager)
    → Consistent p m
    → Stepped m (record { place = p; manager = m }) none_z none_z
idle-Stepped p m c = record {
  consistent = c;
  totals = λ z. refl;
  stable = λ z h. refl;
  graph_same = refl;
}

thread-Stepped :
    (p : Place) (e : Event) (m : Manager)
    → Consistent p m
    → Allowed e m
    → Stepped m (thread_step p e m) none_z (departs e p m)
unfolding end_launch
thread-Stepped at_loop loop_top m c a = loop_top-Stepped m c
thread-Stepped polling (poll_ends none_done) m c a = none_done-Stepped m c
thread-Stepped polling (poll_ends (exited j)) m c a = exited-Stepped j m c
thread-Stepped polling (poll_ends (unreaped j)) m c a = unreaped-Stepped j m c a
thread-Stepped (in_launch j) (launch_ends (started b)) m c a = launched-Stepped b j m c
thread-Stepped (in_launch j) (launch_ends cancelled) m c a = cancelled-Stepped j m c
thread-Stepped (in_launch j) (launch_ends broken) m c a = failed-Stepped j m c
thread-Stepped (in_complete j) (post_run_ends h) m c a = completed-Stepped h j m c
thread-Stepped stopped (launch_ends l) m c a = idle-Stepped stopped m c
thread-Stepped crashed (launch_ends l) m c a = idle-Stepped crashed m c
thread-Stepped p e m c a = idle-Stepped p m c

-- In a state in order, one allowed event, of the scheduler thread or a call of another thread, keeps what `Consistent` says.
-- It adds no job but the one of `add_job`, drops no job but one whose runner was launched after the
-- stop, and leaves the status of every completed job as it is.
pub step-Stepped :
    (e : Event) (s : System)
    → Consistent s.place s.manager
    → Allowed e s.manager
    → Stepped s.manager (step e s) (arrives e) (departs e s.place s.manager)
unfolding step
step-Stepped (call_add j) s c a = added-Stepped s.place j s.manager c a
step-Stepped call_pause s c a = quiet c (pause-Section s.manager c.inv) (pause-Fixed s.manager)
step-Stepped call_resume s c a = quiet c (resume-Section s.manager c.inv) (resume-Fixed s.manager)
step-Stepped call_stop s c a = quiet c (stop-Section s.manager c.inv) (stop-Fixed s.manager)
step-Stepped call_kill s c a = quiet c (kill-Section s.manager c.inv) (kill-Fixed s.manager)
step-Stepped loop_top s c a = thread-Stepped s.place loop_top s.manager c a
step-Stepped (launch_ends l) s c a = thread-Stepped s.place (launch_ends l) s.manager c a
step-Stepped (poll_ends q) s c a = thread-Stepped s.place (poll_ends q) s.manager c a
step-Stepped (post_run_ends h) s c a = thread-Stepped s.place (post_run_ends h) s.manager c a

-- The states that follow from `s` by allowed events.
pub data Reaches (s : System) : System → Type 0 where
  here : Reaches s s
  next : {t : System} (e : Event) → Reaches s t → Allowed e t.manager → Reaches s (step e t)

-- From a state in order, every state that allowed events lead to is in order: no job stands in two
-- queues or twice in one, the unfinished jobs have no final status, every ready, launching, active
-- or finalizing job has dependencies that all succeeded, the launching and the finalizing job are
-- those at which the scheduler thread stands, and the running jobs keep to the limit.
pub Reaches-Consistent :
    {s t : System} → Reaches s t → Consistent s.place s.manager → Consistent t.place t.manager
Reaches-Consistent here c = c
Reaches-Consistent (next {t} e r a) c = (step-Stepped e t (Reaches-Consistent r c) a).consistent

-- From a state in order, allowed events never change the status of a job that is completed in it.
pub Reaches-stable :
    {s t : System} (z : ℕ)
    → Reaches s t
    → Consistent s.place s.manager
    → completed (s.manager.status z) ≡ true
    → t.manager.status z ≡ s.manager.status z
Reaches-stable z here c h = refl
Reaches-stable z (next {t} e r a) c h =
    let before = Reaches-stable z r c h in
    (step-Stepped e t (Reaches-Consistent r c) a).stable z (ap completed before ∙ h) ∙ before

-- A manager with empty queues is in order.
pub fresh-Consistent :
    (g : Graph) (status : Statuses) (limit quit : ℕ)
    → Consistent at_loop (fresh g status limit quit)
fresh-Consistent g status limit quit = record {
  inv = record {
    once = λ z. omega arith;
    uncompleted = λ z h. absurd (omega arith);
    succeeded = λ z h. absurd (omega arith);
  };
  launching_at = refl;
  finalizing_at = refl;
  within = alone (omega arith);
}
