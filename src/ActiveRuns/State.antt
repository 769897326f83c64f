-- ===== src/ActiveRuns/State.antt =====
-- lib/simmer_state.py: the LSF context, the state of a run and ActiveRun, which keeps its file.
pub mod Updates
use rules_verilog.Base.{
  ℕ, suc, Bool, true, false, not, ◌&&◌, ◌||◌, String, Option, none, some, List, [], ◌∷◌, ◌++◌,
  if◌then◌else◌,
}
use Prim.Native.String.{◌++◌ as ◌^◌}
use rules_verilog.Results.Text.{str_eq, truthy}

pub record Lsf : Type 0 where
  pub job_id : Option String
  pub job_index : Option String
  pub display_job_id : Option String
  pub queue : Option String
  pub host : String
  pub submit_host : Option String
  pub interactive : Bool

-- A process identifier that is no int, or an int below 0, is `none`.
pub record Process : Type 0 where
  pub pid : Option ℕ
  pub host : Option String
  pub start_time : Option String

-- A state file's contents, with what `get` gives for a missing key. Times are numbers of one unit.
pub record State : Type 0 where
  pub run_id : Option String
  pub started_at : Option String
  pub started_at_epoch : Option ℕ
  pub command : Option String
  pub status : Option String
  pub planned_tests : ℕ
  pub finished_tests : ℕ
  pub active_tests : ℕ
  pub queued_tests : ℕ
  pub compile_logs : List String
  pub result_log : Option String
  pub regression_log : Option String
  pub lsf : Option Lsf
  pub process : Process

-- The variables that are read from the environment.
pub record Environment : Type 0 where
  pub lsb_jobid : Option String
  pub lsb_jobindex : Option String
  pub lsb_queue : Option String
  pub lsb_sub_host : Option String
  pub simmer_submit_cmd : Option String

-- `text or None`.
abbrev pub or_none : String → Option String
or_none t = if str_eq t "" then none else some t

-- `str.strip` is a parameter.
module _ (strip : String → String) where
  -- `str(environment.get(name) or "").strip()`.
  abbrev pub variable : Option String → String
  variable none = strip ""
  variable (some v) = strip v

  abbrev pub display : String → String → String
  display job_id job_index =
      if not (str_eq job_id "") && not (str_eq job_index "" || str_eq job_index "0")
      then job_id ^ ("[" ^ (job_index ^ "]"))
      else job_id

  unfoldable pub capture_lsf_context :
      Environment → (hostname : String) → (interactive : Bool) → Lsf
  capture_lsf_context e hostname interactive =
      let job_id = variable e.lsb_jobid in
      let job_index = variable e.lsb_jobindex in
      record {
        job_id = or_none job_id;
        job_index = or_none job_index;
        display_job_id = or_none (display job_id job_index);
        queue = or_none (variable e.lsb_queue);
        host = hostname;
        submit_host = or_none (variable e.lsb_sub_host);
        interactive = interactive;
      }

  -- `os.path.basename` and `shlex.quote` are parameters.
  module _ (basename quote : String → String) where
    abbrev pub display_argv : List String → List String
    display_argv [] = "simmer" ∷ []
    display_argv (a ∷ rest) = (if str_eq (basename a) "" then a else basename a) ∷ rest

    abbrev pub join_quoted : List String → String
    join_quoted [] = ""
    join_quoted (a ∷ []) = quote a
    join_quoted (a ∷ (b ∷ rest)) = quote a ^ (" " ^ join_quoted (b ∷ rest))

    abbrev pub format_command : List String → String
    format_command argv = join_quoted (display_argv argv)

    abbrev pub queue_arguments : Option String → List String
    queue_arguments none = []
    queue_arguments (some q) = if str_eq q "" then [] else "-q" ∷ q ∷ []

    abbrev pub submission : List String → Lsf → List String
    submission argv lsf =
        "bsub"
        ∷ ((if lsf.interactive then "-I" ∷ [] else [])
            ++ queue_arguments lsf.queue
            ++ display_argv argv)

    unfoldable pub format_submission_command : List String → Lsf → Environment → String
    format_submission_command argv lsf e =
        if not (str_eq (variable e.simmer_submit_cmd) "")
        then variable e.simmer_submit_cmd
        else if not (truthy lsf.job_id)
        then format_command argv
        else join_quoted (submission argv lsf)

-- The values that `update` can be given, of any kind, with Python's None among them.
module _ {Value : Type 0} (same : Value → Value → Bool) (null : Value) where
  pub record ActiveRun : Type 0 where
    pub enabled : Bool
    pub state : List (String × Value)
    pub written : Option (List (String × Value))  -- the state file
    pub warnings : ℕ

  abbrev pub get : String → List (String × Value) → Option Value
  get k [] = none
  get k ((j, v) ∷ s) = if str_eq k j then some v else get k s

  abbrev pub put : String → Value → List (String × Value) → List (String × Value)
  put k v [] = (k, v) ∷ []
  put k v ((j, w) ∷ s) = if str_eq k j then (j, v) ∷ s else (j, w) ∷ put k v s

  -- `self._state.get(key) != value`.
  abbrev pub differs : Option Value → Value → Bool
  differs none v = not (same null v)
  differs (some w) v = not (same w v)

  -- The loop over the changes: the state, and whether it changed.
  unfoldable pub apply_changes :
      List (String × Value) → List (String × Value) → Bool → List (String × Value) × Bool
  apply_changes [] s changed = (s, changed)
  apply_changes ((k, v) ∷ cs) s changed =
      let differ = differs (get k s) v in
      apply_changes cs (if differ then put k v s else s) (changed || differ)

  -- `ActiveRun._publish`; whether the file can be written is a parameter.
  unfoldable pub publish : (writable : Bool) → ActiveRun → ActiveRun
  publish writable r =
      if not r.enabled
      then r
      else if writable
      then record r { written = some r.state }
      else record r { enabled = false; warnings = suc r.warnings }

  -- `ActiveRun.update`, with the time of the update.
  unfoldable pub update :
      (writable : Bool) → Value → List (String × Value) → ActiveRun → Bool × ActiveRun
  unfolding publish apply_changes
  update writable now changes r =
      let (s, changed) = apply_changes changes r.state false in
      if not changed
      then (false, r)
      else (true, publish writable (record r { state = put "updated_at" now s }))

  -- `ActiveRun.close`, after the watching thread has stopped; `false` when the file cannot be removed.
  abbrev pub close : (removable : Bool) → ActiveRun → ActiveRun
  close true r = record r { written = none }
  close false r = record r { warnings = suc r.warnings }
