-- ===== src/Status.antt =====
-- lib/job_lib.py, class JobStatus: the status of a job and its legal transitions.
pub mod Transitions
mod Examples
use rules_verilog.Base.{ℕ, Bool, true, false, leb, if◌then◌else◌, ◌||◌}

pub data JobStatus : Type 0 where
  not_started to_be_bypassed passed failed skipped bypassed : JobStatus

-- The numbers of the enumeration.
abbrev pub value : JobStatus → ℕ
value not_started = 0
value to_be_bypassed = 1
value passed = 10
value failed = 11
value skipped = 12
value bypassed = 13

abbrev pub completed : JobStatus → Bool
completed s = leb (value passed) (value s)

abbrev pub successful : JobStatus → Bool
successful passed = true
successful bypassed = true
successful _ = false

abbrev pub same_status : JobStatus → JobStatus → Bool
same_status not_started not_started = true
same_status to_be_bypassed to_be_bypassed = true
same_status passed passed = true
same_status failed failed = true
same_status skipped skipped = true
same_status bypassed bypassed = true
same_status _ _ = false

-- The status that the setter stores, or the ValueError of `_error`.
pub data Update : Type 0 where
  moved : JobStatus → Update
  value_error : (from to : JobStatus) → Update

-- The branches on the current status, for a new status that differs from it.
abbrev pub transition : JobStatus → JobStatus → Update
transition not_started new = moved new
transition to_be_bypassed passed = moved bypassed
transition to_be_bypassed new =
    if same_status new failed || same_status new skipped
    then moved new
    else value_error to_be_bypassed new
transition passed new = if same_status new failed then moved new else value_error passed new
transition failed new = value_error failed new
transition skipped new = if same_status new failed then moved new else value_error skipped new
transition bypassed new = if same_status new failed then moved new else value_error bypassed new

unfoldable pub update : JobStatus → JobStatus → Update
update s new =
    if same_status new not_started
    then value_error s new
    else if same_status s new
    then moved new
    else transition s new
