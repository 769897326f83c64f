-- ===== src/Scheduler/Shutdown.antt =====
-- lib/job_lib.py, JobManager.kill behind its locked section, and status_snapshot: the active runners
-- are terminated in threads of their own, and the result says whether everything has stopped.
use rules_verilog.Base.{
  ◌+◌, ◌≡◌, ◌↔◌, ℕ, refl, Bool, true, false, not, ◌&&◌, Option, none, some, List, [], ◌∷◌, ◌++◌,
  any, all, count, count-append, if◌then◌else◌, arith, sym, ◌∙◌,
}
use rules_verilog.Scheduler.State.{Manager}
use rules_verilog.Scheduler.Invariant.{total}

-- How the thread of one active job ends: what `runner.kill()` returned, if it did not raise, whether
-- the hook `cancel` raised after that, and whether the thread ended within its time.
pub record Terminated : Type 0 where
  pub stopped : Option Bool
  pub cancel_raises : Bool
  pub joined : Bool

abbrev pub has_error : Terminated → Bool
has_error t = t.joined && (elim t.stopped [ none ↦ true | some b ↦ b && t.cancel_raises ])

abbrev pub is_incomplete : Terminated → Bool
is_incomplete t = t.joined && (elim t.stopped [ none ↦ false | some b ↦ not b ])

pub data KillEnd : Type 0 where
  raised : KillEnd
  returned : Bool → KillEnd

-- The result of `kill`; `scheduler_finished` says that the scheduler thread was joined in time.
unfoldable pub kill_result : List Terminated → (scheduler_finished : Bool) → Manager → KillEnd
kill_result ts scheduler_finished m =
    if any has_error ts
    then raised
    else returned (
        not (any (λ t. not t.joined) ts)
        && not (any is_incomplete ts)
        && scheduler_finished
        && not m.shutdown_incomplete)

pub record Snapshot : Type 0 where
  pub paused : Bool
  pub queued : List ℕ
  pub launching : List ℕ
  pub active : List ℕ
  pub finalizing : List ℕ
  pub done : List ℕ
  pub skipped : List ℕ

unfoldable pub status_snapshot : Manager → Snapshot
status_snapshot m = record {
  paused = m.paused;
  queued = m.todo ++ m.ready;
  launching = m.launching;
  active = m.active;
  finalizing = m.finalizing;
  done = m.done;
  skipped = m.skipped;
}

-- The runner has stopped, and its hook has released the resources.
abbrev pub is_clean : Terminated → Bool
is_clean t = t.joined && (elim t.stopped [ none ↦ false | some b ↦ b ]) && not t.cancel_raises

clean_one : (t : Terminated) → is_clean t ≡ (not (has_error t) && t.joined && not (is_incomplete t))
clean_one t = split t.joined t.stopped t.cancel_raises
  where
    split :
        (j : Bool) (s : Option Bool) (c : Bool)
        → (j && (elim s [ none ↦ false | some b ↦ b ]) && not c) ≡ (
            not (j && (elim s [ none ↦ true | some b ↦ b && c ]))
            && j
            && not (j && (elim s [ none ↦ false | some b ↦ not b ])))
    split j none c = ground arith
    split j (some b) c = ground arith

clean_all :
    (ts : List Terminated)
    → all is_clean ts
      ≡ (not (any has_error ts) && not (any (λ t. not t.joined) ts) && not (any is_incomplete ts))
clean_all [] = refl
clean_all (t ∷ ts) = ground (arith, clean_one t, clean_all ts)

kill_decides :
    (errors unfinished incomplete finished left : Bool)
    → ((if errors
          then raised
          else returned (not unfinished && not incomplete && finished && not left))
        ≡ returned true)
      ↔ (not errors && not unfinished && not incomplete ≡ true) × (finished ≡ true) × (left ≡ false)
kill_decides errors unfinished incomplete finished left = (λ h. ground arith, λ h. ground arith)

-- `kill` reports success exactly if every active runner has stopped and released its resources in
-- time, the scheduler thread has ended, and no incomplete shutdown was recorded.
pub kill_result-success :
    (ts : List Terminated) (scheduler_finished : Bool) (m : Manager)
    → (kill_result ts scheduler_finished m ≡ returned true)
      ↔ (all is_clean ts ≡ true) × (scheduler_finished ≡ true) × (m.shutdown_incomplete ≡ false)
unfolding kill_result
kill_result-success ts scheduler_finished m =
    let d =
      kill_decides (any has_error ts) (any (λ t. not t.joined) ts) (any is_incomplete ts)
        scheduler_finished m.shutdown_incomplete in
    (
      λ h. (clean_all ts ∙ (d.0 h).0, (d.0 h).1, (d.0 h).2),
      λ h. d.1 (sym (clean_all ts) ∙ h.0, h.1, h.2),
    )

-- A snapshot shows every job of the manager as often as its queues hold it.
pub status_snapshot-total :
    (z : ℕ) (m : Manager)
    → let s = status_snapshot m in
      count z s.queued
        + count z s.launching
        + count z s.active
        + count z s.finalizing
        + count z s.done
        + count z s.skipped
      ≡ total z m
unfolding status_snapshot
status_snapshot-total z m = omega (arith, count-append z m.todo m.ready)
