-- ===== src/Results/Report.antt =====
-- lib/simmer_results.py, format_history with the functions that format one run: which runs are
-- listed, under which number, and what is said of each. The colours and the layout of the texts are
-- left out, and a duration is its hours, minutes and seconds.
use rules_verilog.Base.{
  ℕ, zero, suc, ◌+◌, ◌*◌, ◌/◌, ◌%◌, ◌<◌, ◌≡◌, ◌⊎◌, inl, inr, refl, Bool, String, Option, none, some,
  List, [], ◌∷◌, length, length-drop, leb, min, ap, subst, ◌∙◌, ◌-◌, if◌then◌else◌, arith,
}
use rules_verilog.Results.Text.{text_or, or_text}
use rules_verilog.Results.Records.{RunStatus, Summary, Timing, Run}
use rules_verilog.Results.Final.{select_compile_log, select_result_log, select_waves_script}
use rules_verilog.Results.Store.{last_slice, last_of, filter_history_runs}

-- Hours, minutes and seconds.
abbrev pub Clock : Type 0
Clock = ℕ × ℕ × ℕ

abbrev pub clock : ℕ → Clock
clock total_seconds = (total_seconds / 3600, (total_seconds % 3600) / 60, total_seconds % 60)

-- `_format_duration`, for a duration in milliseconds.
unfoldable pub format_duration : Option ℕ → Option Clock
format_duration none = none
format_duration (some duration) = some (clock (duration / 1000))

-- `_format_timing`.
pub data CompileTime : Type 0 where
  reused : CompileTime
  took : Option Clock → CompileTime

unfoldable pub format_timing : Timing → CompileTime × Option Clock
unfolding format_duration
format_timing t = (
  if t.compile_reused then reused else took (format_duration t.compile_elapsed),
  format_duration t.simulate_elapsed,
)

-- `_format_test_summary`: the counts that are named, where more than one test was planned.
pub data Detail : Type 0 where
  passed failed interrupted skipped : ℕ → Detail

abbrev pub named : (ℕ → Detail) → ℕ → List Detail → List Detail
named d zero rest = rest
named d (suc n) rest = d (suc n) ∷ rest

unfoldable pub format_test_summary : Summary → Option (List Detail)
format_test_summary s =
    if leb s.total 1
    then none
    else some (
        passed s.passed
        ∷ named failed s.failed (named interrupted s.interrupted (named skipped s.skipped [])))

pub record Entry : Type 0 where
  pub index : ℕ
  pub time : String
  pub status : RunStatus
  pub tests : Option (List Detail)
  pub timing : CompileTime × Option Clock
  pub compile : String
  pub result : String
  pub waves : Option String

abbrev pub dash_if_empty : Option String → Option String
dash_if_empty none = none
dash_if_empty (some script) = some (text_or (some script) "-")

-- The body of the loop of `format_history`.
unfoldable pub format_run : ℕ → Run → Entry
unfolding format_timing format_test_summary
format_run index run = record {
  index = index;
  time = text_or (or_text run.finished_at run.started_at) "-";
  status = run.status;
  tests = format_test_summary run.summary;
  timing = format_timing run.timing;
  compile = select_compile_log run;
  result = select_result_log run;
  waves = dash_if_empty (select_waves_script run);
}

-- `zip(range(len(recent_runs), 0, -1), recent_runs)`.
abbrev pub number : ℕ → List Run → List Entry
number n [] = []
number zero (run ∷ runs) = []
number (suc n) (run ∷ runs) = format_run (suc n) run ∷ number n runs

pub data Report : Type 0 where
  no_history no_match : Report
  entries : List Entry → Report

abbrev pub report_recent : ℕ → List Run → Report
report_recent count [] = no_match
report_recent count (run ∷ runs) =
    let recent = last_slice count (run ∷ runs) in entries (number (length recent) recent)

unfoldable pub format_history :
    List Run → (count : ℕ) → Option String → (failed_only : Bool) → Report
unfolding filter_history_runs format_run
format_history [] count bench failed_only = no_history
format_history (run ∷ runs) count bench failed_only =
    report_recent count (filter_history_runs bench failed_only (run ∷ runs))

-- The hours, minutes and seconds of a duration add up to its whole seconds, with fewer than sixty
-- minutes and seconds.
pub format_duration_exact :
    (duration hours minutes seconds : ℕ)
    → format_duration (some duration) ≡ some (hours, minutes, seconds)
    → (3600 * hours + 60 * minutes + seconds ≡ duration / 1000) × (minutes < 60) × (seconds < 60)
unfolding format_duration
format_duration_exact duration hours minutes seconds h = ground arith

-- What a report lists.
abbrev pub index_of : Option Entry → ℕ
index_of none = 0
index_of (some e) = e.index

number_lem :
    (runs : List Run)
    → (length (number (length runs) runs) ≡ length runs)
      × ((length runs ≡ 0) ⊎ (index_of (last_of (number (length runs) runs)) ≡ 1))
number_lem [] = (refl, inl refl)
number_lem (run ∷ []) = unfold format_run in (refl, inr refl)
number_lem (run ∷ (r ∷ runs)) =
    let h = number_lem (r ∷ runs) in (omega (arith, h.0), inr (ground (arith, h.1)))

recent_lem :
    (n : ℕ) (runs : List Run) → length (last_slice (suc n) runs) ≡ min (suc n) (length runs)
recent_lem n runs = omega (arith, length-drop (length runs - suc n) runs)

-- With room for at least one run, a report of matching runs lists the requested number of the newest
-- of them, or all if there are fewer, and the newest comes last under the number 1.
pub format_history-entries :
    (run : Run) (runs : List Run) (n : ℕ) (bench : Option String) (failed_only : Bool)
    (es : List Entry)
    → format_history (run ∷ runs) (suc n) bench failed_only ≡ entries es
    → (length es ≡ min (suc n) (length (filter_history_runs bench failed_only (run ∷ runs))))
      × (index_of (last_of es) ≡ 1)
unfolding format_history
format_history-entries run runs n bench failed_only es =
    split (filter_history_runs bench failed_only (run ∷ runs))
  where
    from_entries : List Entry → Report → List Entry
    from_entries d no_history = d
    from_entries d no_match = d
    from_entries d (entries l) = l

    split :
        (found : List Run)
        → report_recent (suc n) found ≡ entries es
        → (length es ≡ min (suc n) (length found)) × (index_of (last_of es) ≡ 1)
    split [] h = cc
    split (r ∷ rs) h =
        let recent = last_slice (suc n) (r ∷ rs) in
        let e : number (length recent) recent ≡ es = ap (from_entries es) h in
        let k = number_lem recent in
        let l = recent_lem n (r ∷ rs) in
        subst (λ x. (length x ≡ min (suc n) (length (r ∷ rs))) × (index_of (last_of x) ≡ 1)) e
          (k.0 ∙ l, ground (arith, k.1, l))
