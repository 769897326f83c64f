-- ===== src/Summary/Examples.antt =====
-- Runs of the summary and of the statistics, on small inputs.
use rules_verilog.Base.{
  ℕ, ◌≡◌, refl, true, false, String, Option, none, some, List, [], ◌∷◌, ◌==◌, if◌then◌else◌,
}
use rules_verilog.Status.{JobStatus, passed, failed, skipped}
use rules_verilog.Summary.Counts.{TestRun, Bench, Row, Totals, summarize, print_summary}
use rules_verilog.Results.Text.{str_lt}
use rules_verilog.Summary.Counts.Partition.{
  none_bypassed, none_bypassed_in, none_bypassed_at_all, is_summary, print_summary-is_summary,
}
use rules_verilog.Summary.Categories.{Category, Tested, calc_category_stats}

abbrev ran : JobStatus → TestRun
ran s = record { status = s; simulation_duration = some 3; job_time = 4; log_path = some "log" }

-- Two tests, of which the second comes first in the table; one iteration failed.
abbrev bench : Bench
bench = record {
  name = "tb";
  status = passed;
  log_path = "cmp.log";
  iterations =
      record {
        name = "b";
        vcomper = "tb";
        category = "";
        first = ran passed;
        others = ran failed ∷ [];
      }
      ∷ record { name = "a"; vcomper = "tb"; category = ""; first = ran skipped; others = [] }
      ∷ [];
}

abbrev digit : ℕ → String
digit n = if n == 1 then "1" else "2"

abbrev totals_of : Option (List Row × Totals) → Option Totals
totals_of none = none
totals_of (some (rows, t)) = some t

abbrev tests_of : List Row → List String
tests_of [] = []
tests_of (r ∷ rs) = r.test ∷ tests_of rs

abbrev names_of : Option (List Row × Totals) → List String
names_of none = []
names_of (some (rows, t)) = tests_of rows

summed_up :
    totals_of (print_summary digit digit false false false (bench ∷ []))
    ≡ some (record { passed = 1; skipped = 1; failed = 1; total = 3 })
unfolding summarize str_lt
summed_up = refl

listed :
    names_of (print_summary digit digit false false false (bench ∷ []))
    ≡ "vcomp" ∷ "a" ∷ "b" ∷ "" ∷ []
unfolding summarize str_lt
listed = refl

print_summary-is_summary_example :
    is_summary (print_summary digit digit false false false (bench ∷ [])) ≡ true
unfolding none_bypassed_at_all none_bypassed_in none_bypassed
print_summary-is_summary_example =
    print_summary-is_summary digit digit false false false (bench ∷ []) refl

-- A test that was run twice, once with success, and one without the tag.
abbrev tested : List Tested
tested =
    record { target = "t"; tags = "x" ∷ []; statuses = passed ∷ failed ∷ [] }
    ∷ record { target = "u"; tags = "y" ∷ []; statuses = passed ∷ [] }
    ∷ record { target = "v"; tags = "x" ∷ []; statuses = passed ∷ [] }
    ∷ []

abbrev category : Category
category = record { name = "c"; total = 9; tags = "x" ∷ [] }

one_of_two :
    calc_category_stats (category ∷ []) false tested
    ≡ record { category = category; executed = 2; passed = 1; test_records = "v" ∷ "t" ∷ [] } ∷ []
unfolding calc_category_stats
one_of_two = refl
