-- ===== src/Runner/Escalation.antt =====
-- SIGTERM comes first, SIGKILL at most once and a grace period later, and the polls end.
use rules_verilog.Base.{
  ℕ, suc, ◌+◌, ◌≤◌, ◌≡◌, ◌⊎◌, inl, inr, true, false, ◌||◌, Option, some, List, [], ◌∷◌, ◌++◌, arith,
  refl, ap, ◌∙◌, Bool-cases,
}
use rules_verilog.Base.Int.{ℤ, pos}
use rules_verilog.Runner.{
  Runner, Observation, Signal, sigterm, sigkill, sigstop, sigcont, check_for_done, check_once,
  check_exited, check_running, kill_grace, ownership_grace, returncode, due, is_some,
}

-- What holds of a runner between two polls: the deadlines are set when they are read, and a
-- SIGKILL follows a SIGTERM.
pub record IsArmed (r : Runner) : Type 0 where
  pub term_set : r.timed_out || r.orphaned ≡ true → is_some r.term_deadline ≡ true
  pub kill_set : r.kill_sent ≡ true → is_some r.kill_deadline ≡ true
  pub kill_follows : r.kill_sent ≡ true → r.timed_out || r.orphaned ≡ true

pub check_running-IsArmed :
    (o : Observation) (r : Runner) → IsArmed r → IsArmed (check_running o r).1
unfolding check_running
check_running-IsArmed o r h = ground (arith, h.term_set, h.kill_set, h.kill_follows)

pub check_exited-IsArmed : (o : Observation) (r : Runner) → IsArmed r → IsArmed (check_exited o r).1
unfolding check_exited
check_exited-IsArmed o r h = ground (arith, h.term_set, h.kill_set, h.kill_follows)

-- Every poll, with or without an exception, keeps the deadlines set and the order of the signals.
pub check_for_done-IsArmed :
    (o : Observation) (r : Runner) → IsArmed r → IsArmed (check_for_done o r).1
unfolding check_for_done check_once
check_for_done-IsArmed o r h =
    let e = check_exited-IsArmed o r h in
    let n = check_running-IsArmed o r h in
    record {
      term_set = ground (arith, h.term_set, e.term_set, n.term_set);
      kill_set = ground (arith, h.kill_set, e.kill_set, n.kill_set);
      kill_follows = ground (arith, h.kill_follows, e.kill_follows, n.kill_follows);
    }

-- How often SIGKILL and SIGTERM have been sent.
abbrev pub sigkills : List Signal → ℕ
sigkills [] = 0
sigkills (sigkill ∷ ss) = suc (sigkills ss)
sigkills (_ ∷ ss) = sigkills ss

abbrev pub sigterms : List Signal → ℕ
sigterms [] = 0
sigterms (sigterm ∷ ss) = suc (sigterms ss)
sigterms (_ ∷ ss) = sigterms ss

sigkills-snoc :
    (ss : List Signal) (s : Signal) → sigkills (ss ++ (s ∷ [])) ≡ sigkills ss + sigkills (s ∷ [])
sigkills-snoc [] s = omega arith
sigkills-snoc (sigkill ∷ ss) s = omega (arith, sigkills-snoc ss s)
sigkills-snoc (sigterm ∷ ss) s = sigkills-snoc ss s
sigkills-snoc (sigstop ∷ ss) s = sigkills-snoc ss s
sigkills-snoc (sigcont ∷ ss) s = sigkills-snoc ss s

sigterms-snoc :
    (ss : List Signal) (s : Signal) → sigterms (ss ++ (s ∷ [])) ≡ sigterms ss + sigterms (s ∷ [])
sigterms-snoc [] s = omega arith
sigterms-snoc (sigterm ∷ ss) s = omega (arith, sigterms-snoc ss s)
sigterms-snoc (sigkill ∷ ss) s = sigterms-snoc ss s
sigterms-snoc (sigstop ∷ ss) s = sigterms-snoc ss s
sigterms-snoc (sigcont ∷ ss) s = sigterms-snoc ss s

-- What one poll may send.
pub record Escalates (o : Observation) (r q : Runner) : Type 0 where
  -- SIGKILL only after SIGTERM, once its grace period is over, and never twice.
  pub kill :
      (sigkills q.signals ≡ sigkills r.signals) × (q.kill_sent ≡ r.kill_sent)
      ⊎ (sigkills q.signals ≡ suc (sigkills r.signals))
        × (r.kill_sent ≡ false)
        × (q.kill_sent ≡ true)
        × (r.timed_out || r.orphaned ≡ true)
        × ((due o.now r.term_deadline ≡ true) ⊎ (due o.later r.term_deadline ≡ true))
  -- SIGTERM only for a run that in this poll leaves processes behind or times out, which it had not
  -- done before.
  pub term :
      (sigterms q.signals ≡ sigterms r.signals)
      ⊎ (sigterms q.signals ≡ suc (sigterms r.signals))
        × (r.timed_out ≡ false)
        × ((r.orphaned ≡ false) × (q.orphaned ≡ true) ⊎ (q.timed_out ≡ true))
        × (r.kill_sent ≡ q.kill_sent)

running-Escalates : (o : Observation) (r : Runner) → IsArmed r → Escalates o r (check_running o r).1
unfolding check_running
running-Escalates o r h = record {
  kill = ground (arith, sigkills-snoc r.signals sigkill, sigkills-snoc r.signals sigterm);
  term = ground (arith, sigterms-snoc r.signals sigkill, sigterms-snoc r.signals sigterm);
}

exited-Escalates : (o : Observation) (r : Runner) → IsArmed r → Escalates o r (check_exited o r).1
unfolding check_exited
exited-Escalates o r h =
    let n = running-Escalates o r h in
    record {
      kill =
          ground (arith, n.kill, sigkills-snoc r.signals sigkill, sigkills-snoc r.signals sigterm);
      term =
          ground (arith, n.term, sigterms-snoc r.signals sigkill, sigterms-snoc r.signals sigterm);
    }

-- A poll in which no call of the operating system raises sends SIGKILL only if it was not sent
-- before and the run had been sent SIGTERM, whose grace period is over, and sends SIGTERM only if
-- the run has newly timed out, or has newly left processes behind without having timed out.
pub check_for_done-Escalates :
    (o : Observation) (r : Runner)
    → IsArmed r
    → o.raises ≡ false
    → Escalates o r (check_for_done o r).1
unfolding check_for_done check_once
check_for_done-Escalates o r h quiet =
    let n = running-Escalates o r h in
    let e = exited-Escalates o r h in
    record { kill = ground (arith, n.kill, e.kill); term = ground (arith, n.term, e.term) }

-- A run that is waiting for its processes to vanish after SIGKILL was sent at `at`.
pub record IsKilled (at : ℕ) (q : Runner) : Type 0 where
  pub ownership_is : q.ownership_deadline ≡ some (at + kill_grace + ownership_grace)
  pub kill_is : q.kill_deadline ≡ some (at + kill_grace)
  pub sent : q.kill_sent ≡ true
  pub running : q.done ≡ false
  pub unpaused : q.paused ≡ false
  pub late : q.timed_out ≡ true

-- A run that has timed out and waits for its processes to vanish after SIGTERM, until `deadline`.
pub record IsTermed (deadline : ℕ) (r : Runner) : Type 0 where
  pub term_is : r.term_deadline ≡ some deadline
  pub unsent : r.kill_sent ≡ false
  pub running : r.done ≡ false
  pub unpaused : r.paused ≡ false
  pub late : r.timed_out ≡ true

first_poll :
    (o : Observation) (r : Runner) (deadline : ℕ)
    → o.raises ≡ false
    → IsTermed deadline r
    → deadline ≤ o.now
    → o.now ≤ o.later
    → ((check_for_done o r).0 ≡ true)
      ⊎ ((at : ℕ) × (at ≤ o.later) × IsKilled at (check_for_done o r).1)
unfolding check_for_done
first_poll o r deadline quiet t reached clock = elim (Bool-cases (is_some o.exit_code)) [
  | inr runs ↦ inr (
    o.later,
    omega arith,
    record {
      ownership_is = ground arith;
      kill_is = ground arith;
      sent = ground arith;
      running = ground arith;
      unpaused = ground arith;
      late = ground arith;
    },
  )
  | inl exited ↦ elim (Bool-cases o.groups_exist) [
    | inr gone ↦ inl (ground arith)
    | inl alive ↦ inr (
      o.now,
      clock,
      record {
        ownership_is = ground arith;
        kill_is = ground arith;
        sent = ground arith;
        running = ground arith;
        unpaused = ground arith;
        late = ground arith;
      },
    )
  ]
]

second_poll :
    (o : Observation) (q : Runner) (at : ℕ)
    → o.raises ≡ false
    → IsKilled at q
    → at + kill_grace + ownership_grace ≤ o.now
    → o.now ≤ o.later
    → (check_for_done o q).0 ≡ true
unfolding check_for_done
second_poll o q at quiet k reached clock = ground arith

-- Some more polls.
abbrev pub poll_all : List Observation → Runner → Runner
poll_all [] r = r
poll_all (o ∷ os) r = poll_all os (check_for_done o r).1

-- A killed run either ends in a poll or waits on, with the same deadlines.
poll-IsKilled :
    (o : Observation) (q : Runner) (at : ℕ)
    → IsKilled at q
    → ((check_for_done o q).1.done ≡ true) ⊎ IsKilled at (check_for_done o q).1
unfolding check_for_done
poll-IsKilled o q at k = elim (Bool-cases (check_for_done o q).1.done) [
  | inl ends ↦ inl ends
  | inr runs ↦ inr (record {
    ownership_is = ground arith;
    kill_is = ground arith;
    sent = ground arith;
    running = runs;
    unpaused = ground arith;
    late = ground arith;
  })
]

stays_done : (o : Observation) (q : Runner) → q.done ≡ true → check_for_done o q ≡ (true, q)
unfolding check_for_done
stays_done o q d = rw d refl

poll_all-done : (os : List Observation) (q : Runner) → q.done ≡ true → (poll_all os q).done ≡ true
poll_all-done [] q d = d
poll_all-done (o ∷ os) q d =
    poll_all-done os (check_for_done o q).1 (ap (λ r. r.1.done) (stays_done o q d) ∙ d)

poll_all-IsKilled :
    (os : List Observation) (q : Runner) (at : ℕ)
    → IsKilled at q
    → ((poll_all os q).done ≡ true) ⊎ IsKilled at (poll_all os q)
poll_all-IsKilled [] q at k = inr k
poll_all-IsKilled (o ∷ os) q at k = elim (poll-IsKilled o q at k) [
  | inl d ↦ inl (poll_all-done os (check_for_done o q).1 d)
  | inr l ↦ poll_all-IsKilled os (check_for_done o q).1 at l
]

result-done :
    (o : Observation) (r : Runner)
    → (check_for_done o r).0 ≡ true
    → (check_for_done o r).1.done ≡ true
unfolding check_for_done
result-done o r h = ground arith

-- A run that has timed out and is not paused is polled after the grace period of SIGTERM, and then as
-- often and at whatever times: any poll that comes 32 seconds or more after that first one reports
-- that the run is done, even if its processes never vanish. The first and the last poll meet no
-- exception; those between may.
pub escalation_ends :
    (o1 o2 : Observation) (os : List Observation) (r : Runner) (deadline : ℕ)
    → o1.raises ≡ false
    → o2.raises ≡ false
    → IsTermed deadline r
    → deadline ≤ o1.now
    → o1.now ≤ o1.later
    → o1.later + kill_grace + ownership_grace ≤ o2.now
    → o2.now ≤ o2.later
    → (check_for_done o2 (poll_all os (check_for_done o1 r).1)).0 ≡ true
escalation_ends o1 o2 os r deadline q1 q2 t a b c d =
    let q = (check_for_done o1 r).1 in
    let ended : (poll_all os q).done ≡ true → (check_for_done o2 (poll_all os q)).0 ≡ true =
      λ e. ap (λ x. x.0) (stays_done o2 (poll_all os q) e) in
    elim (first_poll o1 r deadline q1 t a b) [
      | inl ends ↦ ended (poll_all-done os q (result-done o1 r ends))
      | inr (at, le, k) ↦ elim (poll_all-IsKilled os q at k) [
        | inl e ↦ ended e
        | inr l ↦ second_poll o2 (poll_all os q) at q2 l (omega arith) d
      ]
    ]

-- A run that the scheduler had to end never reports the return code of a success.
pub returncode-success :
    (r : Runner) (code : Option ℤ)
    → returncode r code ≡ some (pos 0)
    → (code ≡ some (pos 0)) × (r.timed_out ≡ false) × (r.orphaned ≡ false)
unfolding returncode
returncode-success r code h = ground arith
