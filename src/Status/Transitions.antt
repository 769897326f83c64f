-- ===== src/Status/Transitions.antt =====
-- The legal transitions of a job's status, over any number of assignments.
use rules_verilog.Base.{ℕ, ◌+◌, ◌≤◌, ◌≡◌, ◌≢◌, ◌⊎◌, true, false, arith}
use rules_verilog.Status.{
  JobStatus, not_started, to_be_bypassed, passed, failed, skipped, completed, moved, update,
}

-- Recording a failure never raises, whatever the job's status is.
pub update-failed : (s : JobStatus) → update s failed ≡ moved failed
unfolding update
update-failed s = ground arith

-- A job that is not completed can be marked as skipped.
pub update-skipped : (s : JobStatus) → completed s ≡ false → update s skipped ≡ moved skipped
unfolding update
update-skipped s h = ground arith

-- How often a status can still change.
abbrev pub changes_left : JobStatus → ℕ
changes_left not_started = 3
changes_left to_be_bypassed = 2
changes_left failed = 0
changes_left _ = 1

-- Either an assignment keeps the status, or it uses up one of the changes left.
pub update-changes_left :
    (s new : JobStatus) {t : JobStatus}
    → update s new ≡ moved t
    → (t ≡ s) ⊎ (changes_left t + 1 ≤ changes_left s)
unfolding update
update-changes_left s new h = ground arith

-- The status after a sequence of accepted assignments.
pub data Reaches (s : JobStatus) : JobStatus → Type 0 where
  here : Reaches s s
  next : {t u : JobStatus} (new : JobStatus) → Reaches s t → update t new ≡ moved u → Reaches s u

step-completed :
    (s new : JobStatus) {t : JobStatus}
    → update s new ≡ moved t
    → completed s ≡ true
    → (completed t ≡ true) × ((t ≡ s) ⊎ (t ≡ failed))
unfolding update
step-completed s new h c = ground arith

-- After any accepted assignments a completed job is still completed: it has kept its status or has
-- failed.
pub completed-forever :
    {s t : JobStatus}
    → Reaches s t
    → completed s ≡ true
    → (completed t ≡ true) × ((t ≡ s) ⊎ (t ≡ failed))
completed-forever here c = ground arith
completed-forever (next new r e) c =
    ground (arith, completed-forever r c, step-completed _ new e (completed-forever r c).0)

step-bypassed :
    (s new : JobStatus) {t : JobStatus}
    → update s new ≡ moved t
    → (s ≡ to_be_bypassed) ⊎ (s ≢ passed) × (s ≢ not_started)
    → (t ≡ to_be_bypassed) ⊎ (t ≢ passed) × (t ≢ not_started)
unfolding update
step-bypassed s new h c = ground arith

-- A job that was to be bypassed never shows as passed, and never goes back to the start.
pub bypassed-ne-passed :
    {t : JobStatus} → Reaches to_be_bypassed t → (t ≢ passed) × (t ≢ not_started)
bypassed-ne-passed r = ground (arith, go r)
  where
    go :
        {t : JobStatus}
        → Reaches to_be_bypassed t
        → (t ≡ to_be_bypassed) ⊎ (t ≢ passed) × (t ≢ not_started)
    go here = ground arith
    go (next new r e) = step-bypassed _ new e (go r)
