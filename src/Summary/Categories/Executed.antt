-- ===== src/Summary/Categories/Executed.antt =====
-- What the statistics of the categories count.
use rules_verilog.Results.Text.{has}
use rules_verilog.Base.{
  ◌==◌, ◌≡◌, refl, Bool, true, false, not, ◌&&◌, String, List, [], ◌∷◌, length, leb, arith,
}
use rules_verilog.Summary.Categories.{
  Category, Stats, Tested, new_stats, count_in, count_in_all, count_test, count_tests,
  calc_category_stats,
}

-- No text stands twice.
unfoldable pub is_set : List String → Bool
is_set [] = true
is_set (t ∷ ts) = not (has t ts) && is_set ts

-- Each test was counted once, and no more tests passed than were executed.
unfoldable pub is_count : Stats → Bool
is_count s = is_set s.test_records && length s.test_records == s.executed && leb s.passed s.executed

unfoldable pub are_counts : List Stats → Bool
are_counts [] = true
are_counts (s ∷ ss) = is_count s && are_counts ss

-- The categories, in their order.
categories : List Stats → List Category
categories [] = []
categories (s ∷ ss) = s.category ∷ categories ss

count_in-is_count : (i : Tested) (s : Stats) → is_count s ≡ true → is_count (count_in i s) ≡ true
unfolding is_count is_set
count_in-is_count i s h = ground arith

count_in_all-are_counts :
    (i : Tested) (ss : List Stats) → are_counts ss ≡ true → are_counts (count_in_all i ss) ≡ true
unfolding are_counts
count_in_all-are_counts i [] h = refl
count_in_all-are_counts i (s ∷ ss) h =
    ground (arith, count_in-is_count i s, count_in_all-are_counts i ss)

count_test-are_counts :
    (i : Tested) (ss : List Stats) → are_counts ss ≡ true → are_counts (count_test i ss) ≡ true
count_test-are_counts i ss h = ground (arith, count_in_all-are_counts i ss h)

count_tests-are_counts :
    (is : List Tested) (ss : List Stats)
    → are_counts ss ≡ true
    → are_counts (count_tests is ss) ≡ true
count_tests-are_counts [] ss h = h
count_tests-are_counts (i ∷ is) ss h =
    count_tests-are_counts is (count_test i ss) (count_test-are_counts i ss h)

new_stats-are_counts : (cs : List Category) → are_counts (new_stats cs) ≡ true
unfolding are_counts is_count is_set
new_stats-are_counts [] = refl
new_stats-are_counts (c ∷ cs) = new_stats-are_counts cs

-- In the statistics of every category each test is counted once, however often it was run, and no more
-- tests passed than were executed.
pub calc_category_stats-are_counts :
    (cs : List Category) (no_run : Bool) (is : List Tested)
    → are_counts (calc_category_stats cs no_run is) ≡ true
unfolding calc_category_stats
calc_category_stats-are_counts cs true is = new_stats-are_counts cs
calc_category_stats-are_counts cs false is =
    count_tests-are_counts is (new_stats cs) (new_stats-are_counts cs)
