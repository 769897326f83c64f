-- ===== src/Simmer/TestEnd/Passing.antt =====
-- bin/simmer.py, TestJob.post_run: when a test passes.
use rules_verilog.Base.{
  ◌≡◌, ◌≢◌, refl, Bool, true, false, not, ◌&&◌, none, some, ◌↔◌, ◌⊎◌, inl, inr, Bool-cases, arith,
  if◌then◌else◌,
}
use rules_verilog.Status.{
  JobStatus, to_be_bypassed, passed, bypassed, failed, successful, completed, same_status, update,
}
use rules_verilog.Simmer.Compile.{is_zero}
use rules_verilog.Simmer.TestEnd.{
  Simulated, TestEnd, ErrorMessage, no_error, error_file, no_error_file, no_log, no_wave,
  judge_returncode, judge_waves, end_test, post_run,
}

-- The simulation returned 0, left its log, and left the wave that was asked for.
abbrev pub Passes : Simulated → Type 0
Passes m =
    (is_zero m.returncode ≡ true) × (m.log_exists ≡ true) × (m.waves && not m.wave_exists ≡ false)

-- No call that the hook makes raises.
abbrev pub Returns : Simulated → Type 0
Returns m =
    (m.begins ≡ true)
    × (m.links ≡ true)
    × (m.reads_errors ≡ true)
    × (m.shows_wave ≡ true)
    × (m.ends ≡ true)

-- A status with its message, of a test that has gone well or not.
abbrev Judged : Bool → JobStatus × ErrorMessage → Type 0
Judged fine x =
    (x.0 ≡ failed) × (x.1 ≢ no_error) × (fine ≡ false)
    ⊎ (successful x.0 ≡ true) × (x.1 ≡ no_error) × (fine ≡ true)

error_of : Simulated → ErrorMessage
error_of m = elim m.error_text [ some text ↦ error_file text | none ↦ no_error_file m.returncode ]

error_of-no_error : (m : Simulated) → error_of m ≢ no_error
unfolding error_of
error_of-no_error m = ground arith

-- What the setter makes of PASSED.
after_passed : JobStatus → JobStatus
after_passed s = if same_status s to_be_bypassed then bypassed else passed

judge_returncode-Judged :
    (m : Simulated) (s : JobStatus)
    → completed s ≡ false
    → Returns m
    → (x : JobStatus × ErrorMessage) × (judge_returncode m s ≡ some x)
      × Judged (is_zero m.returncode && m.log_exists) x
unfolding update error_of after_passed
judge_returncode-Judged m s c l = elim (Bool-cases (is_zero m.returncode)) [
  | inr z ↦ ((failed, error_of m), ground arith, inl (refl, error_of-no_error m, ground arith))
  | inl z ↦ elim (Bool-cases m.log_exists) [
    | inr n ↦ ((failed, no_log), ground arith, inl (refl, ground arith, ground arith))
    | inl y ↦ ((after_passed s, no_error), ground arith, inr (ground arith, refl, ground arith))
  ]
]

judge_waves-Judged :
    (m : Simulated) (fine : Bool) (x : JobStatus × ErrorMessage)
    → Returns m
    → Judged fine x
    → (y : JobStatus × ErrorMessage) × (judge_waves m x ≡ some y)
      × Judged (fine && not (m.waves && not m.wave_exists)) y
unfolding update
judge_waves-Judged m fine (s, e) l j = elim (Bool-cases (m.waves && not m.wave_exists)) [
  | inr n ↦ ((s, e), ground arith, ground (arith, j))
  | inl n ↦ elim j [
    | inl bad ↦ ((s, e), ground arith, inl (bad.0, bad.1, ground arith))
    | inr good ↦ ((failed, no_wave), ground arith, inl (refl, ground arith, ground arith))
  ]
]

Judged-facts :
    (fine : Bool) (x : JobStatus × ErrorMessage)
    → Judged fine x
    → ((successful x.0 ≡ true) ⊎ (x.0 ≡ failed))
      × ((successful x.0 ≡ true) ↔ (fine ≡ true))
      × ((x.1 ≡ no_error) ↔ (successful x.0 ≡ true))
      × (same_status x.0 failed ≡ not (successful x.0))
Judged-facts fine (s, e) j = (
  ground (arith, j),
  (λ h. ground (arith, j), λ h. ground (arith, j)),
  (λ h. ground (arith, j), λ h. ground (arith, j)),
  ground (arith, j),
)

-- A test that was not completed before, when no call that the hook makes raises: the hook returns; the
-- test ends as successful or as failed, and as successful exactly when it passes; it has an error
-- message exactly when it has failed; its coverage is cleaned up exactly when it has failed, and its
-- directory is removed only when the run is tidy and it was successful.
pub post_run-Passes :
    (m : Simulated) (s : JobStatus)
    → completed s ≡ false
    → Returns m
    → (e : TestEnd) × (post_run m s ≡ some e)
      × ((successful e.status ≡ true) ⊎ (e.status ≡ failed))
      × ((successful e.status ≡ true) ↔ Passes m)
      × ((e.error_message ≡ no_error) ↔ (successful e.status ≡ true))
      × (e.cleans_coverage ≡ not (successful e.status))
      × (e.removes_directory ≡ m.tidy && successful e.status)
      × (e.links_last_fail ≡ not (is_zero m.returncode))
unfolding post_run
post_run-Passes m s c l =
    let (x, first, j) = judge_returncode-Judged m s c l in
    let (y, last, k) = judge_waves-Judged m (is_zero m.returncode && m.log_exists) x l j in
    let f = Judged-facts _ y k in
    (
      end_test m y,
      ground (arith, first, last, l),
      f.0,
      (λ h. ground (arith, f.1.0 h), λ h. f.1.1 (ground (arith, h.0, h.1, h.2))),
      f.2,
      f.3,
      refl,
      refl,
    )
