-- ===== src/Scheduler/Thread/Steps/Polling.antt =====
-- The end of a poll and the completion of a job are steps that keep `Consistent`.
use rules_verilog.Base.{
  ℕ, ◌≡◌, refl, ◌∙◌, sym, subst, ap, Bool, true, false, [], ◌∷◌, ◌++◌, elem, remove, if◌then◌else◌,
}
use rules_verilog.Scheduler.State.{Manager}
use rules_verilog.Scheduler.Finish.{PostRun, complete_job, start_finalizing}
use rules_verilog.Scheduler.Invariant.Promoting.{Section}
use rules_verilog.Scheduler.Invariant.Completing.{
  complete_job-Completes, start_finalizing-Section, record_incomplete_shutdown-Section,
}
use rules_verilog.Scheduler.Invariant.Fixed.{
  Fixed, record_incomplete_shutdown-Fixed, complete_job-Fixed,
}
use rules_verilog.Scheduler.Thread.{
  at_loop, polling, stopped, in_complete, none_done, exited, unreaped, end_poll, completed_system,
}
use rules_verilog.Scheduler.Thread.Places.{Consistent, WithinLimit, WithinLimit-remove}
use rules_verilog.Scheduler.Thread.Steps.{
  Stepped, none_z, moved, Section-refl, within_loop, elem_own, remove_own,
}

pub exited-Stepped :
    (j : ℕ) (m : Manager) → Consistent polling m → Stepped m (end_poll (exited j) m) none_z none_z
unfolding end_poll
exited-Stepped j m c = split m.thread_active (elem j m.active) refl
  where
    fixed : Fixed m m [] m.active []
    fixed = record {
      launching_is = c.launching_at;
      active_is = refl;
      finalizing_is = c.finalizing_at;
      limit_same = refl;
      graph_same = refl;
    }

    w : WithinLimit m (m.active ++ [])
    w = within_loop polling refl c

    same : Section m m
    same = Section-refl m c.inv

    split :
        (b e : Bool)
        → elem j m.active ≡ e
        → Stepped m
            (if b
              then (if e
                  then record { place = in_complete j; manager = start_finalizing j m }
                  else record { place = at_loop; manager = m })
              else record { place = stopped; manager = m })
            none_z
            none_z
    split false e h = moved m.active same fixed w
    split true false h = moved m.active same fixed w
    split true true h =
        unfold start_finalizing in
        moved (remove j m.active) (start_finalizing-Section j m c.inv h)
          (record {
            launching_is = c.launching_at;
            active_is = refl;
            finalizing_is = ap (λ l. l ++ (j ∷ [])) c.finalizing_at;
            limit_same = refl;
            graph_same = refl;
          })
          (WithinLimit-remove m j m.active w)

pub unreaped-Stepped :
    (j : ℕ) (m : Manager)
    → Consistent polling m
    → elem j m.active ≡ true
    → Stepped m (end_poll (unreaped j) m) none_z none_z
unfolding end_poll
unreaped-Stepped j m c h =
    let f = record_incomplete_shutdown-Fixed j m c.inv h in
    moved (remove j m.active) (record_incomplete_shutdown-Section j m c.inv h)
      (record {
        launching_is = f.launching_is ∙ c.launching_at;
        active_is = f.active_is;
        finalizing_is = f.finalizing_is ∙ c.finalizing_at;
        limit_same = f.limit_same;
        graph_same = f.graph_same;
      })
      (WithinLimit-remove m j m.active (within_loop polling refl c))

pub none_done-Stepped :
    (m : Manager) → Consistent polling m → Stepped m (end_poll none_done m) none_z none_z
unfolding end_poll
none_done-Stepped m c =
    moved m.active (Section-refl m c.inv)
      (record {
        launching_is = c.launching_at;
        active_is = refl;
        finalizing_is = c.finalizing_at;
        limit_same = refl;
        graph_same = refl;
      })
      (within_loop polling refl c)

pub completed-Stepped :
    (hook : PostRun) (j : ℕ) (m : Manager)
    → Consistent (in_complete j) m
    → Stepped m (completed_system (complete_job hook j m)) none_z none_z
completed-Stepped hook j m c =
    let own = elem_own j m.finalizing c.finalizing_at in
    let d = complete_job-Completes hook j m c.inv own in
    let f = complete_job-Fixed hook j m c.inv own in
    subst (λ r. Stepped m (completed_system r) none_z none_z) (sym d.ends)
      (moved m.active d.section
        (record {
          launching_is = f.launching_is ∙ c.launching_at;
          active_is = f.active_is;
          finalizing_is = f.finalizing_is ∙ ap (remove j) c.finalizing_at ∙ remove_own j;
          limit_same = f.limit_same;
          graph_same = f.graph_same;
        })
        (within_loop (in_complete j) refl c))
