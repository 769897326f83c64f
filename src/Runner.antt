-- ===== src/Runner.antt =====
-- lib/job_lib.py, class SubprocessJobRunner: the life of one subprocess group as the scheduler's
-- polls see it: time limit, pauses, SIGTERM, SIGKILL and the wait for the group to vanish. Times
-- are whole milliseconds. What the operating system answers to a poll is an `Observation`.
pub mod Escalation
pub mod Pauses
mod Examples
use rules_verilog.Base.{
  ℕ, zero, suc, ◌+◌, ◌-◌, Bool, true, false, not, ◌&&◌, ◌||◌, Option, none, some, List, [], ◌∷◌,
  ◌++◌, ltb, leb, max, min, if◌then◌else◌,
}
use rules_verilog.Base.Int.{ℤ, pos, negsuc}

abbrev pub term_grace : ℕ
term_grace = 10000

abbrev pub kill_grace : ℕ
kill_grace = 2000

abbrev pub ownership_grace : ℕ
ownership_grace = 30000

pub data Signal : Type 0 where
  sigterm sigkill sigstop sigcont : Signal

pub record Runner : Type 0 where
  pub start_time : ℕ
  pub timeout : ℕ  -- `job.timeout`; at 0 there is no limit
  pub has_start_path : Bool  -- the job has a `timeout_start_path`
  pub timeout_start : Option ℕ
  pub done : Bool
  pub timed_out : Bool
  pub orphaned : Bool
  pub kill_sent : Bool
  pub kill_failure_reported : Bool
  pub shutdown_incomplete : Bool
  pub term_deadline : Option ℕ
  pub kill_deadline : Option ℕ
  pub ownership_deadline : Option ℕ
  pub paused : Bool
  pub paused_at : Option ℕ
  pub pause_intervals : List (ℕ × ℕ)
  pub signals : List Signal  -- the signals sent to the process groups so far

-- One poll: the exit code of the shell, whether a managed process group is alive, the clock at the
-- two places where the code reads it, the time stamp of the start file, whether a call of the
-- operating system raised, and whether the processes could then be reaped.
pub record Observation : Type 0 where
  pub exit_code : Option ℤ
  pub groups_exist : Bool
  pub now : ℕ
  pub later : ℕ
  pub start_stamp : Option ℕ
  pub raises : Bool
  pub raises_late : Bool  -- the call came behind the assignments of the poll
  pub reaped : Bool

abbrev pub is_some {ℓ} : {A : Type ℓ} → Option A → Bool
is_some none = false
is_some (some _) = true

-- `now >= deadline`.
abbrev pub due : ℕ → Option ℕ → Bool
due now none = false
due now (some deadline) = leb deadline now

abbrev pub send : Signal → Runner → Runner
send s r = record r { signals = r.signals ++ (s ∷ []) }

-- `_send_sigkill`.
unfoldable pub send_sigkill : ℕ → Runner → Runner
send_sigkill now r = if r.kill_sent then r else record r {
  signals = r.signals ++ (sigkill ∷ []);
  kill_sent = true;
  kill_deadline = some (now + kill_grace);
  ownership_deadline = some (now + kill_grace + ownership_grace);
}

abbrev pub or_after_kill : Option ℕ → Option ℕ → Option ℕ
or_after_kill (some deadline) kill = some deadline
or_after_kill none (some kill) = some (kill + ownership_grace)
or_after_kill none none = none

-- `_ownership_wait_expired`.
unfoldable pub ownership_wait_expired : ℕ → Runner → Bool × Runner
ownership_wait_expired now r =
    let r' = record r { ownership_deadline = or_after_kill r.ownership_deadline r.kill_deadline } in
    if due now r'.ownership_deadline
    then (true, record r' { shutdown_incomplete = true })
    else (false, record r' { kill_failure_reported = true })

-- `_paused_duration_since`: the parts of the intervals that lie between the start and now.
abbrev pub overlap : ℕ → ℕ → ℕ × ℕ → ℕ
overlap start now (from, to) = min now to - max start from

abbrev pub sum_overlaps : ℕ → ℕ → List (ℕ × ℕ) → ℕ
sum_overlaps start now [] = 0
sum_overlaps start now (i ∷ is) = overlap start now i + sum_overlaps start now is

abbrev pub open_interval : Bool → Option ℕ → ℕ → List (ℕ × ℕ)
open_interval true (some from) now = (from, now) ∷ []
open_interval _ _ now = []

unfoldable pub paused_duration_since : ℕ → ℕ → Runner → ℕ
paused_duration_since start now r =
    sum_overlaps start now (r.pause_intervals ++ open_interval r.paused r.paused_at now)

-- Where the measured time starts: with a start file, at its time stamp once it exists.
abbrev pub measured_start : Runner → Observation → Option ℕ
measured_start r o =
    if r.has_start_path
    then (if is_some r.timeout_start then r.timeout_start else o.start_stamp)
    else some r.start_time

abbrev pub expire : ℕ → Runner → Runner
expire now r = record r {
  timed_out = true;
  term_deadline = some (now + term_grace);
  signals = r.signals ++ (sigterm ∷ []);
}

-- `self.job.timeout > 0 and delta > timeout`, with the paused time added to the start.
abbrev pub is_overdue : ℕ → ℕ → ℕ → ℕ → Bool
is_overdue start paused timeout now = ltb 0 timeout && ltb (start + paused + timeout) now

unfoldable pub check_timeout : ℕ → Option ℕ → Runner → Runner
unfolding paused_duration_since
check_timeout now none r = r
check_timeout now (some start) r =
    if is_overdue start (paused_duration_since start now r) r.timeout now then expire now r else r

-- The second half of `_check_for_done`.
unfoldable pub check_running : Observation → Runner → Bool × Runner
unfolding send_sigkill ownership_wait_expired check_timeout
check_running o r =
    if r.paused
    then (false, r)
    else if r.timed_out
    then (if not r.kill_sent && due o.later r.term_deadline
        then (false, send_sigkill o.later r)
        else if r.kill_sent && due o.later r.kill_deadline
        then ownership_wait_expired o.later r
        else (false, r))
    else (
      false,
      check_timeout o.later (measured_start r o) (record r {
        timeout_start = if r.has_start_path then measured_start r o else r.timeout_start;
      }),
    )

abbrev pub orphan : ℕ → Runner → Runner
orphan now r = record r {
  orphaned = true;
  term_deadline = some (now + term_grace);
  signals = r.signals ++ (sigterm ∷ []);
}

-- The first half of `_check_for_done`, for a shell that has exited; it falls through to the second.
unfoldable pub check_exited : Observation → Runner → Bool × Runner
unfolding check_running
check_exited o r =
    if not o.groups_exist
    then (true, r)
    else if not r.timed_out && not r.orphaned
    then (false, orphan o.now r)
    else if not r.kill_sent && due o.now r.term_deadline
    then (false, send_sigkill o.now r)
    else if r.kill_sent && not (due o.now r.kill_deadline)
    then (false, r)
    else if r.kill_sent
    then ownership_wait_expired o.now r
    else check_running o r

unfoldable pub check_once : Observation → Runner → Bool × Runner
unfolding check_exited
check_once o r = if is_some o.exit_code then check_exited o r else check_running o r

abbrev pub finish : Bool × Runner → Bool × Runner
finish (result, r) = (result, if result then record r { done = true } else r)

-- The handler of `check_for_done` for an exception.
abbrev pub clean_up : Observation → Runner → Bool × Runner
clean_up o r = (
  true,
  record r {
    signals = r.signals ++ (sigkill ∷ []);
    shutdown_incomplete = not o.reaped;
    done = true;
  },
)

unfoldable pub check_for_done : Observation → Runner → Bool × Runner
unfolding check_once
check_for_done o r =
    if r.done
    then (true, r)
    else if o.raises
    then clean_up o (if o.raises_late then (check_once o r).1 else r)
    else finish (check_once o r)

-- `returncode`: a run that was ended by the scheduler does not count as a success.
abbrev pub minus_sigterm : ℤ
minus_sigterm = negsuc 14

abbrev pub none_or_zero : Option ℤ → Bool
none_or_zero none = true
none_or_zero (some (pos zero)) = true
none_or_zero (some _) = false

unfoldable pub returncode : Runner → Option ℤ → Option ℤ
returncode r code =
    if (r.timed_out || r.orphaned) && none_or_zero code then some minus_sigterm else code

-- `pause` and `resume`, at a time `now`.
unfoldable pub pause : Option ℤ → ℕ → Runner → Bool × Runner
pause code now r =
    if r.done || r.timed_out || is_some code then (false, r) else if r.paused then (true, r) else (
      true,
      record r { paused = true; paused_at = some now; signals = r.signals ++ (sigstop ∷ []) },
    )

abbrev pub closed_interval : Option ℕ → ℕ → List (ℕ × ℕ)
closed_interval none now = []
closed_interval (some from) now = (from, now) ∷ []

abbrev pub unpause : ℕ → Runner → Runner
unpause now r = record r {
  signals = r.signals ++ (sigcont ∷ []);
  pause_intervals = r.pause_intervals ++ closed_interval r.paused_at now;
  paused = false;
  paused_at = none;
}

unfoldable pub resume : ℕ → Runner → Bool × Runner
resume now r = if r.paused then (true, unpause now r) else (false, r)

-- `kill`: `vanished` says that the groups vanished within the grace period of SIGTERM,
-- `child_reaped` and `groups_gone` how the final waits ended.
unfoldable pub kill : (vanished child_reaped groups_gone : Bool) → ℕ → Runner → Bool × Runner
kill vanished child_reaped groups_gone now r =
    let r1 = send sigterm (if r.paused then unpause now r else r) in
    let r2 = if vanished then r1 else record (send sigkill r1) { kill_sent = true } in
    let fine = child_reaped && groups_gone in
    (fine, record r2 { shutdown_incomplete = r2.shutdown_incomplete || not fine; done = true })

-- A runner whose subprocess has just started.
abbrev pub start : (now timeout : ℕ) → Bool → Runner
start now timeout has_start_path = record {
  start_time = now;
  timeout = timeout;
  has_start_path = has_start_path;
  timeout_start = none;
  done = false;
  timed_out = false;
  orphaned = false;
  kill_sent = false;
  kill_failure_reported = false;
  shutdown_incomplete = false;
  term_deadline = none;
  kill_deadline = none;
  ownership_deadline = none;
  paused = false;
  paused_at = none;
  pause_intervals = [];
  signals = [];
}
