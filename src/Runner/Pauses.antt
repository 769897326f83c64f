-- ===== src/Runner/Pauses.antt =====
-- Paused time does not count towards the time limit.
use rules_verilog.Base.{
  ℕ, ◌+◌, ◌-◌, ◌≤◌, ◌<◌, ◌≡◌, refl, ap, ◌∙◌, append-nil, ◌↔◌, true, false, Option, some, List, [],
  ◌∷◌, ◌++◌, arith,
}
use rules_verilog.Base.Int.{ℤ}
use rules_verilog.Runner.{
  Runner, pause, resume, open_interval, paused_duration_since, sum_overlaps, check_running,
  Observation, measured_start,
}

sum_overlaps-append :
    (start now : ℕ) (is js : List (ℕ × ℕ))
    → sum_overlaps start now (is ++ js) ≡ sum_overlaps start now is + sum_overlaps start now js
sum_overlaps-append start now [] js = omega arith
sum_overlaps-append start now (i ∷ is) js = omega (arith, sum_overlaps-append start now is js)

-- Intervals of the past have all their overlap by the time they end.
sum_overlaps-later :
    (start t now : ℕ) (is : List (ℕ × ℕ))
    → t ≤ now
    → sum_overlaps start t is ≤ sum_overlaps start now is
sum_overlaps-later start t now [] h = omega arith
sum_overlaps-later start t now ((from, to) ∷ is) h =
    omega (arith, sum_overlaps-later start t now is h)

-- Every interval has ended.
unfoldable pub AllPast : ℕ → List (ℕ × ℕ) → Type 0
AllPast t [] = Unit
AllPast t ((from, to) ∷ is) = (to ≤ t) × AllPast t is

sum_overlaps_past :
    (start t now : ℕ) (is : List (ℕ × ℕ))
    → t ≤ now
    → AllPast t is
    → sum_overlaps start now is ≡ sum_overlaps start t is
unfolding AllPast
sum_overlaps_past start t now [] h p = refl
sum_overlaps_past start t now ((from, to) ∷ is) h p =
    omega (arith, sum_overlaps_past start t now is h p.1)

pause-intervals :
    (r : Runner) (code : Option ℤ) (t : ℕ)
    → (pause code t r).0 ≡ true
    → r.paused ≡ false
    → ((pause code t r).1.pause_intervals ≡ r.pause_intervals)
      × ((pause code t r).1.paused ≡ true)
      × ((pause code t r).1.paused_at ≡ some t)
unfolding pause
pause-intervals r code t ok idle = ground arith

resume-intervals :
    (r : Runner) (t u : ℕ)
    → r.paused ≡ true
    → r.paused_at ≡ some t
    → ((resume u r).1.pause_intervals ≡ r.pause_intervals ++ ((t, u) ∷ []))
      × ((resume u r).1.paused ≡ false)
unfolding resume
resume-intervals r t u h k = (ground arith, ground arith)

duration_unpaused :
    (start now : ℕ) (r : Runner)
    → r.paused ≡ false
    → paused_duration_since start now r ≡ sum_overlaps start now r.pause_intervals
unfolding paused_duration_since
duration_unpaused start now r h =
    ap (λ b. sum_overlaps start now (r.pause_intervals ++ open_interval b r.paused_at now)) h
    ∙ ap (sum_overlaps start now) (append-nil r.pause_intervals)

-- A pause from `t` to `u` of a runner that was started before adds exactly its length to the paused
-- time, as it is measured at any moment after it.
pub resume-pause-duration :
    (r : Runner) (code : Option ℤ) (start t u now : ℕ)
    → (pause code t r).0 ≡ true
    → r.paused ≡ false
    → AllPast t r.pause_intervals
    → start ≤ t
    → t ≤ u
    → u ≤ now
    → paused_duration_since start now (resume u (pause code t r).1).1
      ≡ paused_duration_since start t r + (u - t)
resume-pause-duration r code start t u now ok idle past a b c =
    let p = pause-intervals r code t ok idle in
    let q = resume-intervals (pause code t r).1 t u p.1 p.2 in
    omega (
      arith,
      duration_unpaused start now (resume u (pause code t r).1).1 q.1,
      duration_unpaused start t r idle,
      ap (sum_overlaps start now) q.0,
      ap (λ l. sum_overlaps start now (l ++ ((t, u) ∷ []))) p.0,
      sum_overlaps-append start now r.pause_intervals ((t, u) ∷ []),
      sum_overlaps_past start t now r.pause_intervals (omega arith) past,
    )

-- A poll of a running shell sets off the time limit exactly when the limit is set and the time since
-- the measured start, less the paused time, exceeds it.
pub check_running-timed_out :
    (o : Observation) (r : Runner) (start : ℕ)
    → r.paused ≡ false
    → r.timed_out ≡ false
    → measured_start r o ≡ some start
    → ((check_running o r).1.timed_out ≡ true)
      ↔ (0 < r.timeout) × (start + paused_duration_since start o.later r + r.timeout < o.later)
unfolding check_running
check_running-timed_out o r start a b c = (λ h. ground arith, λ h. ground arith)
