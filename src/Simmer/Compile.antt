-- ===== src/Simmer/Compile.antt =====
-- bin/simmer.py, class VCompJob: pre_run from --recompile to the choice of the command line, post_run
-- with its check of the compile log, and the directory of a compile over a sequence of jobs.
pub mod Reuse
pub mod Harmless
pub mod Logs
pub mod Waived
mod Examples
use rules_verilog.Base.{
  ℕ, zero, suc, Bool, true, false, not, ◌&&◌, ◌||◌, String, Option, none, some, List, [], ◌∷◌,
  if◌then◌else◌,
}
use rules_verilog.Base.Int.{ℤ, pos}
use rules_verilog.Results.Text.{str_eq}
use rules_verilog.Status.{JobStatus, passed, failed, moved, value_error, same_status, update}
use rules_verilog.CompileCache.Json.{Fields}
use rules_verilog.CompileCache.Fingerprint.{
  Failure, Result, ok, raised, then_do, Stored, missing, write_compile_fingerprint,
  invalidate_compile_fingerprint, validate_compile_fingerprint, can_reuse_compile,
}

-- The options, the fingerprint, and what `validate_reusable_compile_artifacts` raises.
pub record Request : Type 0 where
  pub recompile : Bool
  pub no_compile : Bool
  pub auto_reuse : Bool
  pub expected : Fields
  pub artifacts : Option Failure

-- Whether the command line is the bypass, and `compile_cache_hit`.
pub record CommandLine : Type 0 where
  pub bypasses : Bool
  pub hit : Bool

abbrev pub after_recompile : Request → Stored → Stored
after_recompile r stored = if r.recompile then missing else stored

abbrev pub check_reusable : ℕ → Stored → Request → Result CommandLine
check_reusable bound stored r = elim r.artifacts [
  | some e ↦ raised e
  | none ↦ elim (validate_compile_fingerprint bound stored r.expected) [
    | some e ↦ raised e
    | none ↦ ok (record { bypasses = true; hit = false })
  ]
]

abbrev pub choose : ℕ → Stored → Request → Result CommandLine
choose bound stored r =
    let reuse = can_reuse_compile bound stored r.expected r.artifacts in
    if r.no_compile
    then check_reusable bound stored r
    else if r.auto_reuse
    then ok (record { bypasses = reuse.0; hit = reuse.0 })
    else ok (record { bypasses = false; hit = false })

-- The choice and the file of the fingerprint; what is raised leaves the file as it is.
unfoldable pub pre_run : ℕ → Stored → Request → Result (CommandLine × Stored)
unfolding validate_compile_fingerprint can_reuse_compile
pre_run bound stored r = then_do (choose bound stored r) (λ c.
    ok (c, if not r.no_compile && not c.hit then invalidate_compile_fingerprint stored else stored))

-- What `post_run` takes from the simulator and from the waiver file.
pub record Warnings : Type 0 where
  pub is_warning : String → Bool  -- `warning_regex.search(line)`
  pub strip : String → String
  pub search : String → String → Bool  -- a waiver's pattern, a line
  pub is_ignored : ℕ → Bool  -- get_ignored_compile_warning_line_numbers

abbrev pub is_waived : Warnings → List String → String → Bool
is_waived w [] line = false
is_waived w (p ∷ ps) line = w.search p line || is_waived w ps line

-- A line, with its number, that counts as an unwaived warning.
abbrev pub is_unwaived : Warnings → List String → ℕ → String → Bool
is_unwaived w waivers n line =
    w.is_warning line
    && not (w.is_ignored n)
    && not (str_eq (w.strip line) "")
    && not (is_waived w waivers (w.strip line))

-- `if self.jobstatus == JobStatus.PASSED: self.jobstatus = JobStatus.FAILED`
abbrev pub fail_if_passed : JobStatus → JobStatus
fail_if_passed s = if same_status s passed then failed else s

abbrev pub scan_warnings : Warnings → List String → ℕ → List String → JobStatus → JobStatus
scan_warnings w waivers n [] s = s
scan_warnings w waivers n (line ∷ lines) s =
    scan_warnings w waivers (suc n) lines
      (if is_unwaived w waivers n line then fail_if_passed s else s)

-- How a call ends: it returns, raises what its caller catches, or raises anything else.
pub data Call : Type 0 where
  returned caught uncaught : Call

-- What `post_run` meets; `none` is an exception.
pub record Post : Type 0 where
  pub returncode : Option ℤ
  pub parses : Bool  -- whether get_log_parsing_info returns
  pub waivers_exist : Bool
  pub log_exists : Bool
  pub waivers : Option (List String)
  pub log : Option (List String)
  pub base_raises : Bool  -- super().post_run()
  pub records : Call  -- record_compile_artifacts
  pub writes : Call  -- write_compile_fingerprint; a call that raises leaves the file
  pub ends : Bool  -- whether collect_compile_metrics, record_compile_job and the rest return

-- What `post_run` leaves: the status, the file, and whether it raises.
pub record PostEnd : Type 0 where
  pub status : JobStatus
  pub stored : Stored
  pub raises : Bool

abbrev pub is_zero : Option ℤ → Bool
is_zero (some (pos zero)) = true
is_zero _ = false

abbrev pub scan_log : Warnings → List String → Option (List String) → JobStatus → JobStatus
scan_log w waivers none s = fail_if_passed s
scan_log w waivers (some lines) s = scan_warnings w waivers 1 lines s

-- The waivers that are loaded, none of them after an exception, and the status.
abbrev pub load_waivers : Option (List String) → JobStatus → List String × JobStatus
load_waivers (some ws) s = (ws, s)
load_waivers none s = ([], fail_if_passed s)

abbrev pub scan_loaded :
    Warnings → Bool → List String × JobStatus → Option (List String) → JobStatus
scan_loaded w returned_zero (ws, s) log =
    if same_status s passed || returned_zero then scan_log w ws log s else s

unfoldable pub check_warnings : Warnings → Post → JobStatus → JobStatus
check_warnings w p s =
    if not p.waivers_exist
    then s
    else if not p.log_exists
    then s
    else scan_loaded w (is_zero p.returncode) (load_waivers p.waivers s) p.log

-- The statements of `post_run` after the fingerprint.
abbrev pub end_post : Post → JobStatus → Stored → PostEnd
end_post p s stored = record { status = s; stored = stored; raises = not p.ends }

abbrev pub raise_post : JobStatus → Stored → PostEnd
raise_post s stored = record { status = s; stored = stored; raises = true }

-- A compile that has passed so far is recorded.
abbrev pub record_compile : Post → Request → Stored → PostEnd
record_compile p r stored = elim p.records [
  | uncaught ↦ raise_post passed stored
  | caught ↦ end_post p failed stored
  | returned ↦ elim p.writes [
    | uncaught ↦ raise_post passed stored
    | caught ↦ end_post p passed stored
    | returned ↦ end_post p passed (write_compile_fingerprint r.expected)
  ]
]

abbrev pub finish_compile : Post → Request → Bool → Stored → JobStatus → PostEnd
finish_compile p r hit stored s =
    if same_status s passed && not r.no_compile && not hit
    then record_compile p r stored
    else end_post p s stored

unfoldable pub post_run : Warnings → Post → Request → Bool → Stored → JobStatus → PostEnd
unfolding check_warnings update
post_run w p r hit stored s = elim (update s (if is_zero p.returncode then passed else failed)) [
  | value_error _ _ ↦ raise_post s stored
  | moved first ↦
      let checked = check_warnings w p first in
      let last = if p.base_raises then fail_if_passed checked else checked in
      if not p.parses then raise_post first stored else finish_compile p r hit stored last
]

-- The status after `_complete_job`, which fails a job whose `post_run` raises.
abbrev pub ended_status : PostEnd → JobStatus
ended_status e = if e.raises then failed else e.status

-- A job on the directory; `none` ends without `post_run`, launched or not.
pub record Job : Type 0 where
  pub request : Request
  pub status : JobStatus
  pub warnings : Warnings
  pub post : Option Post

-- The file of the fingerprint, and the compiles that were started, the newest first, with whether
-- `post_run` has judged each as passed; what it raises after that fails the job, and the file stays.
pub record Directory : Type 0 where
  pub stored : Stored
  pub compiles : List (Fields × Bool)

pub data JobEnd : Type 0 where
  refused : Failure → JobEnd
  bypassed_run compiled : JobEnd

-- Whether `post_run` has judged the job as passed, and the file.
abbrev pub end_of : Job → Bool → Stored → Bool × Stored
end_of j hit stored = elim j.post [
  | none ↦ (false, stored)
  | some p ↦
      let e = post_run j.warnings p j.request hit stored j.status in
      (same_status e.status passed, e.stored)
]

-- The rest of the job after what `pre_run` returns or raises, on the file that it has started with.
abbrev pub after_start : Job → Directory → Result (CommandLine × Stored) → Directory × JobEnd
after_start j d (raised e) = (d, refused e)
after_start j d (ok (c, after)) =
    let end = end_of j c.hit after in
    if c.bypasses
    then (record d { stored = end.1 }, bypassed_run)
    else (record { stored = end.1; compiles = (j.request.expected, end.0) ∷ d.compiles }, compiled)

unfoldable pub run_job : ℕ → Directory → Job → Directory × JobEnd
unfolding pre_run post_run
run_job bound d j =
    let stored = after_recompile j.request d.stored in
    after_start j (record d { stored = stored }) (pre_run bound stored j.request)

-- The newest compile of a directory.
abbrev pub last_compile : Directory → Option (Fields × Bool)
last_compile d = elim d.compiles [ [] ↦ none | c ∷ _ ↦ some c ]
