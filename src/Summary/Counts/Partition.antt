-- ===== src/Summary/Counts/Partition.antt =====
-- lib/rv_utils.py, print_summary: its counts and its assertion.
use rules_verilog.Base.{
  ℕ, ◌+◌, ◌==◌, ◌≡◌, refl, Bool, true, false, not, ◌&&◌, ◌||◌, String, Option, none, some, List, [],
  ◌∷◌, ◌++◌, length, if◌then◌else◌, arith, ==_iff,
}
use rules_verilog.Status.{
  JobStatus, not_started, to_be_bypassed, passed, failed, skipped, bypassed, completed, successful,
  same_status,
}
use rules_verilog.Summary.Counts.{
  TestRun, Iterations, Bench, Row, Totals, runs, is_passed, is_failed, is_skipped, select,
  counts_add_up, iteration_rows, add_counts, insert, sorted, summarize_tests, summarize_bench,
  vcomp_row, summarize, print_summary,
}

-- No test was bypassed, as only a run without tests bypasses any.
unfoldable pub none_bypassed : List TestRun → Bool
none_bypassed [] = true
none_bypassed (j ∷ js) = not (same_status j.status bypassed) && none_bypassed js

unfoldable pub none_bypassed_in : List Iterations → Bool
none_bypassed_in [] = true
none_bypassed_in (i ∷ is) = none_bypassed (runs i) && none_bypassed_in is

unfoldable pub none_bypassed_at_all : List Bench → Bool
none_bypassed_at_all [] = true
none_bypassed_at_all (b ∷ bs) = none_bypassed_in b.iterations && none_bypassed_at_all bs

is_one :
    (s : JobStatus)
    → same_status s bypassed ≡ false
    → (if completed s && successful s then 1 else 0)
        + (if same_status s failed then 1 else 0)
        + (if not (same_status s failed || same_status s passed) then 1 else 0)
      ≡ 1
is_one not_started h = refl
is_one to_be_bypassed h = refl
is_one passed h = refl
is_one failed h = refl
is_one skipped h = refl
is_one bypassed h = ground arith

length-select_one :
    (p : TestRun → Bool) (j : TestRun) (js : List TestRun)
    → length (select p (j ∷ js)) ≡ (if p j then 1 else 0) + length (select p js)
length-select_one p j js = ground arith

length-select :
    (js : List TestRun)
    → none_bypassed js ≡ true
    → length (select is_passed js) + length (select is_failed js) + length (select is_skipped js)
      ≡ length js
unfolding none_bypassed
length-select [] h = refl
length-select (j ∷ js) h = omega (
  arith,
  length-select js (ground arith),
  is_one j.status (ground arith),
  length-select_one is_passed j js,
  length-select_one is_failed j js,
  length-select_one is_skipped j js,
)

unfoldable pub adds_up : Totals → Bool
adds_up t = t.passed + t.skipped + t.failed == t.total

unfoldable pub is_summary : Option (List Row × Totals) → Bool
is_summary none = false
is_summary (some (rows, t)) = adds_up t

add_counts-adds_up :
    (js : List TestRun) (t : Totals)
    → none_bypassed js ≡ true
    → adds_up t ≡ true
    → adds_up (add_counts js t) ≡ true
unfolding adds_up
add_counts-adds_up js t free h = ground (arith, length-select js free)

counts_add_up_lem : (js : List TestRun) → none_bypassed js ≡ true → counts_add_up js ≡ true
counts_add_up_lem js free = (==_iff _ _).1 (length-select js free)

insert-none_bypassed :
    (i : Iterations) (is : List Iterations)
    → none_bypassed (runs i) ≡ true
    → none_bypassed_in is ≡ true
    → none_bypassed_in (insert i is) ≡ true
unfolding none_bypassed_in
insert-none_bypassed i [] hi h = ground arith
insert-none_bypassed i (k ∷ ks) hi h = ground (arith, insert-none_bypassed i ks hi)

sorted-none_bypassed :
    (is : List Iterations) → none_bypassed_in is ≡ true → none_bypassed_in (sorted is) ≡ true
unfolding none_bypassed_in
sorted-none_bypassed [] h = refl
sorted-none_bypassed (i ∷ is) h =
    insert-none_bypassed i (sorted is) (ground arith) (sorted-none_bypassed is (ground arith))

module _ (digits time : ℕ → String) (nt exited : Bool) where
  summarize_tests-is_summary :
      (bench : String) (is : List Iterations) (rows : List Row) (t : Totals)
      → none_bypassed_in is ≡ true
      → adds_up t ≡ true
      → is_summary (summarize_tests digits time nt exited bench is (rows, t)) ≡ true
  unfolding none_bypassed_in is_summary
  summarize_tests-is_summary bench [] rows t free h = h
  summarize_tests-is_summary bench (i ∷ is) rows t free h = ground (
    arith,
    counts_add_up_lem (runs i),
    summarize_tests-is_summary bench is rows t,
    summarize_tests-is_summary bench is (rows ++ iteration_rows digits time nt exited i)
        (add_counts (runs i) t),
    add_counts-adds_up (runs i) t,
  )

  summarize_bench-is_summary :
      (no_run : Bool) (b : Bench) (rows : List Row) (t : Totals)
      → none_bypassed_in b.iterations ≡ true
      → adds_up t ≡ true
      → is_summary (summarize_bench digits time nt exited no_run b (rows, t)) ≡ true
  unfolding is_summary
  summarize_bench-is_summary true b rows t free h = h
  summarize_bench-is_summary false b rows t free h =
      summarize_tests-is_summary b.name (sorted b.iterations)
        (rows ++ (vcomp_row digits time b ∷ [])) t (sorted-none_bypassed b.iterations free) h

  summarize-is_summary :
      (no_run : Bool) (bs : List Bench) (found : List Row × Totals)
      → none_bypassed_at_all bs ≡ true
      → adds_up found.1 ≡ true
      → is_summary (summarize digits time nt exited no_run bs found) ≡ true
  unfolding summarize none_bypassed_at_all is_summary
  summarize-is_summary no_run [] (rows, t) free h = h
  summarize-is_summary no_run (b ∷ bs) (rows, t) free h =
      then_rest (summarize_bench digits time nt exited no_run b (rows, t))
        (summarize_bench-is_summary no_run b rows t (ground arith) h)
        (λ found e. summarize-is_summary no_run bs found (ground arith) e)
    where
      then_rest :
          (o : Option (List Row × Totals))
          → is_summary o ≡ true
          → ((found : List Row × Totals)
              → adds_up found.1 ≡ true
              → is_summary (summarize digits time nt exited no_run bs found) ≡ true)
          → is_summary
              (elim o [ none ↦ none | some next ↦ summarize digits time nt exited no_run bs next ])
            ≡ true
      then_rest none e all = e
      then_rest (some (rs, u)) e all = all (rs, u) e

  -- When no test was bypassed, the summary is made, without the failure of its assertion, and the
  -- tests that passed, were skipped and failed are together all the tests that it counts.
  pub print_summary-is_summary :
      (no_run : Bool) (bs : List Bench)
      → none_bypassed_at_all bs ≡ true
      → is_summary (print_summary digits time nt exited no_run bs) ≡ true
  unfolding adds_up
  print_summary-is_summary no_run bs free =
      summarize-is_summary no_run bs ([], record { passed = 0; skipped = 0; failed = 0; total = 0 })
        free refl
