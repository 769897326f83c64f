-- ===== src/Runner/Examples.antt =====
-- Runs and instances for the subprocess runner.
use rules_verilog.Base.{ℕ, ◌≡◌, ◌+◌, ◌-◌, refl, true, false, none, some, [], ◌∷◌, arith}
use rules_verilog.Base.Int.{pos}
use rules_verilog.Runner.{
  Runner, Observation, start, check_for_done, returncode, pause, resume, paused_duration_since,
}
use rules_verilog.Runner.Escalation.{Escalates, check_for_done-Escalates, escalation_ends, poll_all}
use rules_verilog.Runner.Pauses.{resume-pause-duration, AllPast}

abbrev running : Runner
running = start 100 5000 false

abbrev overdue : Runner
overdue = record running { timed_out = true; term_deadline = some 20000 }

-- A poll at `now`, of a shell that still runs.
abbrev poll : ℕ → Observation
poll now = record {
  exit_code = none;
  groups_exist = true;
  now = now;
  later = now;
  start_stamp = none;
  raises = false;
  raises_late = false;
  reaped = false;
}

check_for_done-Escalates_example :
    Escalates (poll 20000) overdue (check_for_done (poll 20000) overdue).1
check_for_done-Escalates_example =
    check_for_done-Escalates (poll 20000) overdue
      (record {
        term_set = λ h. refl;
        kill_set = λ h. ground arith;
        kill_follows = λ h. ground arith;
      })
      refl

escalation_ends_example :
    (check_for_done
      (poll 60000)
      (poll_all (poll 20250 ∷ poll 40000 ∷ []) (check_for_done (poll 20000) overdue).1)).0
    ≡ true
escalation_ends_example =
    escalation_ends (poll 20000) (poll 60000) (poll 20250 ∷ poll 40000 ∷ []) overdue 20000 refl refl
      (record { term_is = refl; unsent = refl; running = refl; unpaused = refl; late = refl })
      (omega arith) (omega arith) (omega arith) (omega arith)

success : returncode running (some (pos 0)) ≡ some (pos 0)
unfolding returncode
success = refl

pauses : (pause none 1000 running).0 ≡ true
unfolding pause
pauses = refl

none_past : AllPast 1000 []
unfolding AllPast
none_past = tt

resume-pause-duration_example :
    paused_duration_since 100 9000 (resume 4000 (pause none 1000 running).1).1
    ≡ paused_duration_since 100 1000 running + (4000 - 1000)
resume-pause-duration_example =
    resume-pause-duration running none 100 1000 4000 9000 pauses refl none_past (omega arith)
      (omega arith) (omega arith)
