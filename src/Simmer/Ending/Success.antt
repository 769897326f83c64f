-- ===== src/Simmer/Ending/Success.antt =====
-- bin/simmer.py, main: when it exits with status 0.
use rules_verilog.Base.{
  ◌≤◌, ◌≡◌, ◌≢◌, refl, Bool, true, false, none, some, [], length, if◌then◌else◌, ◌↔◌, ◌⊎◌,
  Bool-cases, ap, ◌∙◌, inl, inr, arith,
}
use rules_verilog.Results.Records.{RunStatus, Run}
use rules_verilog.Results.Final.{finalize_run, failed_tests, interrupted_tests, planned}
use rules_verilog.Results.Statuses.{finalize_run-passed}
use rules_verilog.Results.Store.{save_run, should_save_run}
use rules_verilog.Simmer.Ending.{
  gives, Phases, Session, status, Reached, Marks, post_process, leave, exit_of, finalize_record,
  clean_shared_runtime, finish_main, interrupted, raised, through, exits, marks_of,
}

-- Everything after the jobs has gone well.
abbrev pub GoesWell : Phases → Type 0
GoesWell p =
    (p.shutdown_incomplete ≡ false)
    × (p.workflow ≡ gives false)
    × (p.reports ≡ gives false)
    × (p.cleanup_answer ≡ gives tt)
    × (p.has_logged ≡ false)
    × (p.total_failures ≡ 0)

abbrev pub final_run : Phases → Run → Run
final_run p r = finalize_run p.finished_at p.regression_log false r

post_process-GoesWell :
    (p : Phases) (s : Session)
    → GoesWell p
    → post_process p s ≡ (through, marks_of false false true, clean_shared_runtime s)
post_process-GoesWell p s g = rw (g.0, g.1, g.2, g.3, g.4) refl

exit_of-GoesWell :
    (p : Phases) (s t : Session) (r : Reached) (m : Marks)
    → post_process p s ≡ (r, m, t)
    → (exit_of p r m ≡ status 0)
    → GoesWell p
exit_of-GoesWell p s t r m h e = ground arith

abbrev pub needs_saving : Phases → Session → Bool
needs_saving p s = elim s.run [ none ↦ false | some r ↦ should_save_run (final_run p r) ]

finish_well :
    (p : Phases) (s : Session)
    → GoesWell p
    → finish_main p s ≡ (
        let end = finalize_record p false (clean_shared_runtime s) in
        (if end.0 then status 0 else status 1, end.1))
unfolding finish_main
finish_well p s g = rw (post_process-GoesWell p s g, g.0, g.4, g.5) refl

finalize_record-saved :
    (p : Phases) (s : Session)
    → ((finalize_record p false s).0 ≡ true) ↔ (p.saves ≡ true) ⊎ (needs_saving p s ≡ false)
finalize_record-saved p s = (λ h. ground arith, λ h. ground arith)

finalize_record-kept :
    (p : Phases) (s : Session) (r : Run)
    → s.run ≡ some r
    → (finalize_record p false s).0 ≡ true
    → ((finalize_record p false s).1.run ≡ some (final_run p r))
      × ((finalize_record p false s).1.history ≡ (save_run (final_run p r) p.max_runs s.history).1)
unfolding save_run
finalize_record-kept p s r e h =
    let k = rw e at h in
    rw e (elim (Bool-cases (should_save_run (final_run p r))) [
      | inl save ↦ elim (Bool-cases p.saves) [
        | inl written ↦ rw (save, written) (refl, refl)
        | inr fails ↦ absurd (ground arith)
      ]
      | inr skip ↦ rw skip (refl, refl)
    ])

leave-GoesWell :
    (p : Phases) (s : Session) (x : Reached × Marks × Session)
    → post_process p s ≡ x
    → (leave p x).0 ≡ status 0
    → GoesWell p
leave-GoesWell p s (through, m, t) e h = exit_of-GoesWell p s t through m e (ground arith)
leave-GoesWell p s (interrupted, m, t) e h = ground arith
leave-GoesWell p s (exits, m, t) e h = ground arith
leave-GoesWell p s (raised, m, t) e h = ground arith

finish_main-GoesWell : (p : Phases) (s : Session) → (finish_main p s).0 ≡ status 0 → GoesWell p
unfolding finish_main
finish_main-GoesWell p s h = leave-GoesWell p s (post_process p s) refl h

-- The program exits with status 0 exactly when all processes were reaped, the backend's workflow, the
-- merge of the coverage and the cleanup went well, nothing logged a warning or an error, no test
-- failed, and a run that is to be kept could be written to the history.
pub finish_main-success :
    (p : Phases) (s : Session)
    → ((finish_main p s).0 ≡ status 0)
      ↔ GoesWell p × ((p.saves ≡ true) ⊎ (needs_saving p s ≡ false))
finish_main-success p s =
    let saved = finalize_record-saved p (clean_shared_runtime s) in
    (
      λ h. let g = finish_main-GoesWell p s h in (g, ground (arith, finish_well p s g, saved)),
      λ h. rw (finish_well p s h.0) (ground (arith, saved.1 (ground arith))),
    )

-- When the program exits with status 0, the run has been finalized without a failure of the backend and
-- saved in the history as `save_run` does it, and it counts as passed exactly when tests were recorded,
-- none of them failed or was interrupted, and as many as planned.
pub finish_main-record :
    (p : Phases) (s : Session) (r : Run)
    → s.run ≡ some r
    → (finish_main p s).0 ≡ status 0
    → let after = (finish_main p s).1 in
      (after.run ≡ some (final_run p r))
      × (after.history ≡ (save_run (final_run p r) p.max_runs s.history).1)
      × (((final_run p r).status ≡ RunStatus.passed)
          ↔ (r.tests ≢ [])
            × (failed_tests r.tests ≡ 0)
            × (interrupted_tests r.tests ≡ 0)
            × (planned r ≤ length r.tests))
finish_main-record p s r e h =
    let w = finish_well p s (finish_main-GoesWell p s h) in
    let kept =
      finalize_record-kept p (clean_shared_runtime s) r (ground arith) (ground (arith, w)) in
    let unchanged : (clean_shared_runtime s).history ≡ s.history = ground arith in
    let passes = finalize_run-passed p.finished_at p.regression_log false r in
    rw w (
      kept.0,
      kept.1 ∙ ap (λ y. (save_run (final_run p r) p.max_runs y).1) unchanged,
      (λ q. let c = passes.0 q in (c.1, c.2, c.3, c.4), λ q. passes.1 (refl, q.0, q.1, q.2, q.3)),
    )
