-- ===== src/ActiveRuns/Format.antt =====
-- lib/simmer_state.py: the text of `simmer --status`. Python's formatting of numbers and columns and
-- `shlex.quote` are parameters.
use rules_verilog.Base.{
  ℕ, suc, ◌-◌, ◌/◌, ◌%◌, Bool, true, not, ◌&&◌, ◌||◌, String, Option, none, some, List, [], ◌∷◌,
  ◌++◌, length, if◌then◌else◌, ltb, ◌==◌,
}
use Prim.Native.String.{◌++◌ as ◌^◌}
use rules_verilog.Results.Text.{str_eq, or_text, text_or}
use rules_verilog.ActiveRuns.State.{State, Lsf}
use rules_verilog.ActiveRuns.Loading.{Machine, Entry, load_active_runs}

pub record Printer : Type 0 where
  pub digits : ℕ → String  -- `{}` of a number
  pub two_digits : ℕ → String  -- `{:02d}`
  pub column : String → String  -- `{:<12}`
  pub quote : String → String

-- `separator.join(parts)`.
abbrev pub join_with : String → List String → String
join_with separator [] = ""
join_with separator (p ∷ []) = p
join_with separator (p ∷ (q ∷ ps)) = p ^ (separator ^ join_with separator (q ∷ ps))

-- A part that stands where the value is not false.
abbrev pub part : String → Option String → List String
part name none = []
part name (some v) = if str_eq v "" then [] else (name ^ v) ∷ []

module _ (p : Printer) where
  abbrev pub summary : Lsf → (include_bkill : Bool) → Option String → Option String
  summary lsf include_bkill none = none
  summary lsf include_bkill (some job_id) =
      if str_eq job_id ""
      then none
      else some (
          join_with " | " (
            ("job " ^ job_id)
            ∷ (part "queue " lsf.queue
                ++ part "host " (some lsf.host)
                ++ part "submit " lsf.submit_host
                ++ (if include_bkill then ("bkill " ^ p.quote job_id) ∷ [] else []))))

  unfoldable pub format_lsf_summary : Option Lsf → (include_bkill : Bool) → Option String
  format_lsf_summary none include_bkill = none
  format_lsf_summary (some lsf) include_bkill =
      summary lsf include_bkill (or_text lsf.display_job_id lsf.job_id)

  -- A time before the start counts as none at all, as `-` stops at 0.
  unfoldable pub format_run_duration : ℕ → String
  format_run_duration d =
      p.two_digits (d / 3600)
      ^ (":" ^ (p.two_digits ((d % 3600) / 60) ^ (":" ^ p.two_digits (d % 60))))

  abbrev pub counts : State → List String
  counts s =
      if ltb 1 s.planned_tests
      then ((p.digits s.finished_tests
            ^ ("/"
                ^ (p.digits s.planned_tests
                    ^ (" finished, "
                        ^ (p.digits s.active_tests
                            ^ (" active, " ^ (p.digits s.queued_tests ^ " queued")))))))
          ∷ [])
      else if not (s.active_tests == 0)
      then (p.digits s.active_tests ^ " active") ∷ []
      else if s.planned_tests == 1 && not (s.finished_tests == 0)
      then "1/1 finished" ∷ []
      else []

  -- `state.get("started_at_epoch") or now`.
  abbrev pub start_or : Option ℕ → ℕ → ℕ
  start_or none now = now
  start_or (some e) now = if e == 0 then now else e

  unfoldable pub format_heading : ℕ → State → (now : ℕ) → String
  unfolding format_run_duration
  format_heading index s now =
      let status = text_or s.status "RUNNING" in
      let first = "[" ^ (p.digits index ^ ("] " ^ text_or s.started_at "-")) in
      let more = if str_eq status "RUNNING" || str_eq status "PAUSED" then counts s else [] in
      join_with "  " (first ∷ (status ∷ more))
      ^ (" | elapsed " ^ format_run_duration (now - start_or s.started_at_epoch now))

  -- The lines for the compile logs, of which the first has the label.
  abbrev pub compile_lines : String → List String → List String
  compile_lines name [] = []
  compile_lines name (log ∷ logs) =
      if str_eq log ""
      then compile_lines name logs
      else (p.column name ^ log) ∷ compile_lines "" logs

  abbrev pub log_line : State → List String
  log_line s =
      if ltb 1 s.planned_tests
      then part (p.column "regression:") s.regression_log
      else part (p.column "result:") s.result_log

  unfoldable pub entry_lines : ℕ → State → (now : ℕ) → List String
  unfolding format_heading format_lsf_summary
  entry_lines index s now =
      format_heading index s now
      ∷ (((p.column "cmd:" ^ text_or s.command "-") ∷ [])
          ++ part (p.column "lsf:") (format_lsf_summary s.lsf true)
          ++ compile_lines "compile:" s.compile_logs
          ++ log_line s)

  -- The entries, numbered from their count down to 1.
  abbrev pub entries_of : List State → (now : ℕ) → List String
  entries_of [] now = []
  entries_of (s ∷ rest) now =
      join_with "\n" (entry_lines (suc (length rest)) s now) ∷ entries_of rest now

  -- `STATUS_SEPARATOR` is a parameter, for its length.
  unfoldable pub format_status : (separator : String) → Machine → List Entry → (now : ℕ) → String
  unfolding entry_lines
  format_status separator m entries now = elim (load_active_runs m entries).0 [
    | [] ↦ "No active simmer runs."
    | s ∷ rest ↦ join_with ("\n\n" ^ (separator ^ "\n\n")) (entries_of (s ∷ rest) now)
  ]
