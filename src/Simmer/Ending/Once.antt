-- ===== src/Simmer/Ending/Once.antt =====
-- bin/simmer.py, main: the shared runtime is cleaned once at most, and a run that ends badly is
-- recorded as failed.
use rules_verilog.Base.{
  ℕ, ◌≡◌, ◌≢◌, refl, sym, subst, ◌∙◌, Bool-cases, Bool, true, false, not, String, Option, some,
  if◌then◌else◌, ◌⊎◌, inl, inr, arith,
}
use rules_verilog.Results.Records.{RunStatus, Run}
use rules_verilog.Results.Final.{finalize_run, final_status}
use rules_verilog.Simmer.Ending.{
  gives, interrupts, raises, Phases, Session, Reached, Marks, post_process, leave, is_bad,
  finalize_record, mark_run, mark_stopped, clean_shared_runtime, finish_main, interrupt_main,
  finalize_interrupted_run, shutdown_of, interrupted, raised, through, exits,
}

-- A session in which the backend's cleanup was called just as often as it was attempted.
abbrev pub IsCounted : Session → Type 0
IsCounted s = s.cleanups ≡ (if s.attempted then 1 else 0)

-- The calls of the cleanup in a session that ends in `main`.
abbrev pub cleanups_of : Phases → ℕ
cleanups_of p = if p.shutdown_incomplete then 0 else elim p.workflow [
  | raises ↦ 0
  | interrupts ↦ 1
  | gives _ ↦ elim p.reports [ raises ↦ 0 | _ ↦ 1 ]
]

finalize_record-cleanups :
    (p : Phases) (bad : Bool) (s : Session) → (finalize_record p bad s).1.cleanups ≡ s.cleanups
finalize_record-cleanups p bad s = ground arith

mark_run-cleanups : (p : Phases) (s : Session) → (mark_run p s).cleanups ≡ s.cleanups
mark_run-cleanups p s = ground arith

interrupted-cleanups :
    (p : Phases) (may : Bool) (s : Session)
    → IsCounted s
    → (finalize_interrupted_run p may s).cleanups ≡ (if may then 1 else s.cleanups)
unfolding finalize_interrupted_run
interrupted-cleanups p may s h =
    finalize_record-cleanups p true (mark_run p (if may then clean_shared_runtime s else s))
    ∙ mark_run-cleanups p (if may then clean_shared_runtime s else s)
    ∙ ground arith

leave-cleanups :
    (p : Phases) (r : Reached) (m : Marks) (s : Session)
    → IsCounted s
    → (leave p (r, m, s)).1.cleanups
      ≡ elim r [ interrupted ↦ if p.shutdown_incomplete then s.cleanups else 1 | _ ↦ s.cleanups ]
unfolding finish_main
leave-cleanups p interrupted m s h =
    interrupted-cleanups p (not p.shutdown_incomplete) s h ∙ ground arith
leave-cleanups p through m s h = finalize_record-cleanups p (is_bad p m) s
leave-cleanups p exits m s h = finalize_record-cleanups p (is_bad p m) s
leave-cleanups p raised m s h = finalize_record-cleanups p (is_bad p m) s

finish_main-cleanups :
    (p : Phases) (s : Session)
    → s.attempted ≡ false
    → s.cleanups ≡ 0
    → (finish_main p s).1.cleanups ≡ cleanups_of p
unfolding finish_main
finish_main-cleanups p s a h =
    let (r, m, t) = post_process p s in leave-cleanups p r m t (ground arith) ∙ ground arith

finalize_record-run :
    (p : Phases) (bad : Bool) (s : Session) (r : Run)
    → s.run ≡ some r
    → (finalize_record p bad s).1.run ≡ some (finalize_run p.finished_at p.regression_log bad r)
finalize_record-run p bad s r e = ground (arith, e)

-- A run that a failure of the backend is recorded with.
finalize_run-bad :
    (at : String) (log : Option String) (r : Run)
    → (finalize_run at log true r).status ≡ RunStatus.failed
unfolding finalize_run final_status
finalize_run-bad at log r = refl

-- The session holds a run that is recorded as failed.
abbrev pub IsFailed : Session → Type 0
IsFailed s = (q : Run) × (s.run ≡ some q) × (q.status ≡ RunStatus.failed)

record_bad :
    (p : Phases) (s : Session) (r : Run) → s.run ≡ some r → IsFailed (finalize_record p true s).1
record_bad p s r e = (
  finalize_run p.finished_at p.regression_log true r,
  finalize_record-run p true s r e,
  finalize_run-bad p.finished_at p.regression_log r,
)

interrupted-IsFailed :
    (p : Phases) (may : Bool) (s : Session) (r : Run)
    → s.run ≡ some r
    → IsFailed (finalize_interrupted_run p may s)
unfolding finalize_interrupted_run
interrupted-IsFailed p may s r e =
    let cleaned = if may then clean_shared_runtime s else s in
    let kept : cleaned.run ≡ some r = ground (arith, e) in
    let marked : (mark_run p cleaned).run ≡ some (mark_stopped p.stopped r) =
      rw (kept, mark_run) refl in
    record_bad p (mark_run p cleaned) (mark_stopped p.stopped r) marked

-- Nothing but the tests can have failed.
abbrev pub IsUnspoilt : Phases → Type 0
IsUnspoilt p =
    (p.shutdown_incomplete ≡ false)
    × (p.workflow ≡ gives false)
    × (p.reports ≡ gives false)
    × (p.cleanup_answer ≡ gives tt)
    × (p.has_logged ≡ false)

not_bad-IsUnspoilt :
    (p : Phases) (s t : Session) (h : Reached) (m : Marks)
    → post_process p s ≡ (h, m, t)
    → is_bad p m ≡ false
    → (h ≡ interrupted) ⊎ IsUnspoilt p
not_bad-IsUnspoilt p s t h m e b = ground arith

record-IsFailed :
    (p : Phases) (s t : Session) (r : Run) (h : Reached) (m : Marks)
    → post_process p s ≡ (h, m, t)
    → t.run ≡ some r
    → h ≢ interrupted
    → IsFailed (finalize_record p (is_bad p m) t).1 ⊎ IsUnspoilt p
record-IsFailed p s t r h m e k n = elim (Bool-cases (is_bad p m)) [
  | inl bad ↦ inl (subst (λ b. IsFailed (finalize_record p b t).1) (sym bad) (record_bad p t r k))
  | inr fine ↦ elim (not_bad-IsUnspoilt p s t h m e fine) [ inl i ↦ absurd (n i) | inr u ↦ inr u ]
]

leave-IsFailed :
    (p : Phases) (s t : Session) (r : Run) (h : Reached) (m : Marks)
    → post_process p s ≡ (h, m, t)
    → t.run ≡ some r
    → IsFailed (leave p (h, m, t)).1 ⊎ IsUnspoilt p
unfolding finish_main
leave-IsFailed p s t r interrupted m e k =
    inl (interrupted-IsFailed p (not p.shutdown_incomplete) t r k)
leave-IsFailed p s t r through m e k = record-IsFailed p s t r through m e k (λ i. cc)
leave-IsFailed p s t r exits m e k = record-IsFailed p s t r exits m e k (λ i. cc)
leave-IsFailed p s t r raised m e k = record-IsFailed p s t r raised m e k (λ i. cc)

-- However `main` ends after the jobs: the backend's cleanup of the shared runtime is called once at most,
-- not at all when a process was left or a phase before it raised, and once after an interrupt; and
-- the run is recorded as failed, unless nothing but the tests can have failed. An interrupt during
-- the jobs cleans up exactly if `kill` has stopped all of them, and the run is recorded as failed.
pub ending_once :
    (p : Phases) (killed : Option Bool) (s : Session) (r : Run)
    → s.attempted ≡ false
    → s.cleanups ≡ 0
    → s.run ≡ some r
    → ((finish_main p s).1.cleanups ≡ cleanups_of p)
      × (IsFailed (finish_main p s).1 ⊎ IsUnspoilt p)
      × ((interrupt_main p killed s).1.cleanups ≡ elim killed [ some true ↦ 1 | _ ↦ 0 ])
      × IsFailed (interrupt_main p killed s).1
unfolding finish_main interrupt_main
ending_once p killed s r a c e =
    let (h, m, t) = post_process p s in
    (
      finish_main-cleanups p s a c,
      leave-IsFailed p s t r h m refl (ground (arith, e)),
      interrupted-cleanups p (shutdown_of killed) s (ground arith) ∙ ground arith,
      interrupted-IsFailed p (shutdown_of killed) s r e,
    )
