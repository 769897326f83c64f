-- ===== src/Summary/Counts.antt =====
-- lib/rv_utils.py, print_summary: the rows of the result table (`trd`) and the totals. The text of a
-- number is a parameter; the layout of the table and its log file are not modelled.
pub mod Partition
use rules_verilog.Base.{
  ℕ, zero, ◌+◌, ◌==◌, ltb, Bool, true, false, not, ◌&&◌, ◌||◌, String, Option, none, some, List, [],
  ◌∷◌, ◌++◌, length, if◌then◌else◌,
}
use rules_verilog.Results.Text.{str_eq, str_lt}
use rules_verilog.Status.{JobStatus, passed, failed, skipped, completed, successful, same_status}

pub record TestRun : Type 0 where
  pub status : JobStatus
  pub simulation_duration : Option ℕ
  pub job_time : ℕ
  pub log_path : Option String

-- An IterationCfg with its jobs, of which there is one at least: `jobs[0]` raises otherwise.
pub record Iterations : Type 0 where
  pub name : String  -- `jobs[0].name`
  pub vcomper : String  -- `jobs[0].vcomper`
  pub category : String  -- the names of the categories that its tags meet
  pub first : TestRun
  pub others : List TestRun

pub record Bench : Type 0 where
  pub name : String
  pub status : JobStatus
  pub log_path : String
  pub iterations : List Iterations

-- A row of nine texts.
pub record Row : Type 0 where
  pub bench : String
  pub test : String
  pub max_sim_time : String
  pub passed : String
  pub skipped : String
  pub failed : String
  pub total : String
  pub logs : String
  pub category : String

pub record Totals : Type 0 where
  pub passed : ℕ
  pub skipped : ℕ
  pub failed : ℕ
  pub total : ℕ

abbrev pub runs : Iterations → List TestRun
runs i = i.first ∷ i.others

abbrev pub is_passed : TestRun → Bool
is_passed j = completed j.status && successful j.status

abbrev pub is_failed : TestRun → Bool
is_failed j = same_status j.status failed

abbrev pub is_skipped : TestRun → Bool
is_skipped j = not (same_status j.status failed || same_status j.status passed)

abbrev pub is_timed : TestRun → Bool
is_timed j =
    (same_status j.status passed || same_status j.status failed)
    && (elim j.simulation_duration [ none ↦ false | some d ↦ true ])

abbrev pub select : (TestRun → Bool) → List TestRun → List TestRun
select p [] = []
select p (j ∷ js) = if p j then j ∷ select p js else select p js

-- `max` by `job_time`: the first of the largest.
abbrev pub longest : TestRun → List TestRun → TestRun
longest j [] = j
longest j (k ∷ ks) = longest (if ltb j.job_time k.job_time then k else j) ks

-- Whether the counts pass the assertion.
abbrev pub counts_add_up : List TestRun → Bool
counts_add_up js =
    length (select is_passed js) + length (select is_failed js) + length (select is_skipped js)
    == length js

-- `icfgs.sort()`, which is stable.
abbrev pub insert : Iterations → List Iterations → List Iterations
insert i [] = i ∷ []
insert i (k ∷ ks) = if str_lt k.name i.name then k ∷ insert i ks else i ∷ (k ∷ ks)

abbrev pub sorted : List Iterations → List Iterations
sorted [] = []
sorted (i ∷ is) = insert i (sorted is)

abbrev pub add_counts : List TestRun → Totals → Totals
add_counts js t = record {
  passed = t.passed + length (select is_passed js);
  skipped = t.skipped + length (select is_skipped js);
  failed = t.failed + length (select is_failed js);
  total = t.total + length js;
}

-- The text of a number and of a time are parameters.
module _ (digits time : ℕ → String) where
  -- `str(n) if n else ""`.
  abbrev pub count_text : ℕ → String
  count_text n = if n == 0 then "" else digits n

  abbrev pub time_text : List TestRun → String
  time_text [] = ""
  time_text (j ∷ js) = time (longest j js).job_time

  abbrev pub vcomp_row : Bench → Row
  vcomp_row b =
      let good = successful b.status in
      record {
        bench = b.name;
        test = "vcomp";
        max_sim_time = "";
        passed = if good then "1" else "";
        skipped = if same_status b.status skipped then "1" else "";
        failed = if not good then "1" else "";
        total = "1";
        logs = if good then "" else b.log_path;
        category = "";
      }

  abbrev pub test_row : Iterations → Row
  test_row i =
      let js = runs i in
      record {
        bench = "";
        test = i.name;
        max_sim_time = time_text (select is_timed js);
        passed = count_text (length (select is_passed js));
        skipped = count_text (length (select is_skipped js));
        failed = count_text (length (select is_failed js));
        total = digits (length js);
        logs = "";
        category = i.category;
      }

  abbrev pub log_row : TestRun → Row
  log_row j = record {
    bench = "";
    test = "";
    max_sim_time = "";
    passed = "";
    skipped = "";
    failed = "";
    total = "";
    logs = elim j.log_path [ none ↦ "" | some p ↦ p ];
    category = "";
  }

  abbrev pub log_rows : List TestRun → List Row
  log_rows [] = []
  log_rows (j ∷ js) = log_row j ∷ log_rows js

  -- The rows and totals; `none` is the AssertionError, which a run that was ended early does not raise.
  -- `nt` asks for the logs of the passed runs too.
  module _ (nt exited_prematurely : Bool) where
    abbrev pub iteration_rows : Iterations → List Row
    iteration_rows i =
        test_row i
        ∷ (log_rows (select is_failed (runs i))
            ++ (if nt then log_rows (select is_passed (runs i)) else []))

    abbrev pub summarize_tests :
        String → List Iterations → List Row × Totals → Option (List Row × Totals)
    summarize_tests bench [] found = some found
    summarize_tests bench (i ∷ is) (rows, t) =
        if not (str_eq i.vcomper bench)
        then summarize_tests bench is (rows, t)
        else if not (counts_add_up (runs i)) && not exited_prematurely
        then none
        else summarize_tests bench is (rows ++ iteration_rows i, add_counts (runs i) t)

    abbrev pub summarize_bench :
        (no_run : Bool) → Bench → List Row × Totals → Option (List Row × Totals)
    summarize_bench no_run b (rows, t) =
        if no_run
        then some (rows ++ (vcomp_row b ∷ []), t)
        else summarize_tests b.name (sorted b.iterations) (rows ++ (vcomp_row b ∷ []), t)

    unfoldable pub summarize :
        (no_run : Bool) → List Bench → List Row × Totals → Option (List Row × Totals)
    summarize no_run [] found = some found
    summarize no_run (b ∷ bs) found = elim (summarize_bench no_run b found) [
      | none ↦ none
      | some next ↦ summarize no_run bs next
    ]

    abbrev pub print_summary : (no_run : Bool) → List Bench → Option (List Row × Totals)
    print_summary no_run bs =
        summarize no_run bs ([], record { passed = 0; skipped = 0; failed = 0; total = 0 })
