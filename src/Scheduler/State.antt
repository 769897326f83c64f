-- ===== src/Scheduler/State.antt =====
-- lib/job_lib.py: the fields of Job and JobManager. A job object is a number. What a job is made
-- of stands in a `Graph`, which no method of the manager changes; the status and the cancel event
-- of every job are maps beside it, so that all queues share them as they share the Python objects.
use rules_verilog.Base.{
  ℕ, zero, suc, Bool, true, false, Option, none, some, List, [], ◌==◌, if◌then◌else◌,
}
use rules_verilog.Base.Int.{ℤ, pos, negsuc}
use rules_verilog.Status.{JobStatus, moved, value_error, update}

-- `Job.execution_mode`: the manager raises a ValueError for any other word.
pub data Mode : Type 0 where
  exclusive parallel unknown : Mode

pub record Graph : Type 0 where
  pub priority : ℕ → ℤ
  pub mode : ℕ → Mode
  pub deps : ℕ → List ℕ
  pub children : ℕ → List ℕ

abbrev pub Statuses : Type 0
Statuses = ℕ → JobStatus

abbrev pub set_at {ℓ} : {A : Type ℓ} → ℕ → A → (ℕ → A) → ℕ → A
set_at j a f k = if k == j then a else f k

-- The setter of `Job.jobstatus`. `none` is the ValueError of an illegal transition.
unfoldable pub assign : ℕ → JobStatus → Statuses → Option Statuses
assign j new status = elim (update (status j) new) [
  | moved s ↦ some (set_at j s status)
  | value_error _ _ ↦ none
]

-- The same setter as the scheduler uses it on its own jobs; an illegal transition keeps the status.
unfoldable pub mark : ℕ → JobStatus → Statuses → Statuses
mark j new status = elim (update (status j) new) [
  | moved s ↦ set_at j s status
  | value_error _ _ ↦ status
]

pub record Manager : Type 0 where
  pub graph : Graph
  pub status : Statuses
  pub cancel_requested : ℕ → Bool
  pub todo : List ℕ
  pub ready : List ℕ
  pub launching : List ℕ
  pub active : List ℕ
  pub finalizing : List ℕ
  pub done : List ℕ
  pub skipped : List ℕ
  pub interrupted_jobs : List ℕ
  pub active_job_limit : ℕ
  pub quit_count : ℕ
  pub error_count : ℕ
  pub done_grace_exit : Bool
  pub exited_prematurely : Bool
  pub shutdown_incomplete : Bool
  pub paused : Bool
  pub thread_active : Bool

pub record Options : Type 0 where
  pub idle_print_seconds : ℤ
  pub active_job_limit : Option ℤ
  pub quit_count : ℤ

pub data Created : Type 0 where
  created : Manager → Created
  idle_print_not_positive limit_not_positive quit_count_not_positive : Created

-- The number behind `if value < 1: raise`.
abbrev pub positive : ℤ → Option ℕ
positive (pos zero) = none
positive (pos (suc n)) = some (suc n)
positive (negsuc n) = none

abbrev pub limit_option : Option ℤ → ℤ
limit_option none = pos 1
limit_option (some n) = n

-- A manager with empty queues.
abbrev pub fresh : Graph → Statuses → ℕ → ℕ → Manager
fresh graph status limit quit = record {
  graph = graph;
  status = status;
  cancel_requested = λ _. false;
  todo = [];
  ready = [];
  launching = [];
  active = [];
  finalizing = [];
  done = [];
  skipped = [];
  interrupted_jobs = [];
  active_job_limit = limit;
  quit_count = quit;
  error_count = 0;
  done_grace_exit = false;
  exited_prematurely = false;
  shutdown_incomplete = false;
  paused = false;
  thread_active = true;
}

-- `JobManager.__init__`, for the jobs of a graph that has been built.
unfoldable pub init : Graph → Statuses → Options → Created
init graph status options = elim (positive options.idle_print_seconds) [
  | none ↦ idle_print_not_positive
  | some _ ↦ elim (positive (limit_option options.active_job_limit)) [
    | none ↦ limit_not_positive
    | some limit ↦ elim (positive options.quit_count) [
      | none ↦ quit_count_not_positive
      | some quit ↦ created (fresh graph status limit quit)
    ]
  ]
]
