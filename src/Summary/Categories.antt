-- ===== src/Summary/Categories.antt =====
-- lib/rv_utils.py, calc_category_stats: how many tests of each category were executed, and how many
-- of them passed.
pub mod Executed
use rules_verilog.Base.{
  ℕ, suc, ◌==◌, Bool, true, false, not, ◌&&◌, ◌||◌, String, List, [], ◌∷◌, ◌++◌, length,
  if◌then◌else◌,
}
use rules_verilog.Results.Text.{has, meets, str_eq}
use rules_verilog.Status.{JobStatus, passed, failed, successful, same_status}

pub record Category : Type 0 where
  pub name : String
  pub total : ℕ
  pub tags : List String

pub record Stats : Type 0 where
  pub category : Category
  pub executed : ℕ
  pub passed : ℕ
  pub test_records : List String

-- An IterationCfg: the target and the tags of its first job, and the status of each job.
pub record Tested : Type 0 where
  pub target : String
  pub tags : List String
  pub statuses : List JobStatus

abbrev pub is_empty {ℓ} : {A : Type ℓ} → List A → Bool
is_empty [] = true
is_empty (x ∷ xs) = false

abbrev pub completed_iterations : List JobStatus → List JobStatus
completed_iterations [] = []
completed_iterations (s ∷ ss) =
    if same_status s passed || same_status s failed
    then s ∷ completed_iterations ss
    else completed_iterations ss

abbrev pub all_successful : List JobStatus → Bool
all_successful [] = true
all_successful (s ∷ ss) = successful s && all_successful ss

abbrev pub new_stats : List Category → List Stats
new_stats [] = []
new_stats (c ∷ cs) =
    record { category = c; executed = 0; passed = 0; test_records = [] } ∷ new_stats cs

abbrev pub is_pass : List JobStatus → Bool
is_pass ss =
    length (completed_iterations ss) == length ss && all_successful (completed_iterations ss)

-- The loop over the categories.
abbrev pub count_in : Tested → Stats → Stats
count_in i s =
    if not (meets i.tags s.category.tags) || has i.target s.test_records then s else record s {
      test_records = i.target ∷ s.test_records;
      executed = suc s.executed;
      passed = if is_pass i.statuses then suc s.passed else s.passed;
    }

abbrev pub count_in_all : Tested → List Stats → List Stats
count_in_all i [] = []
count_in_all i (s ∷ ss) = count_in i s ∷ count_in_all i ss

abbrev pub count_test : Tested → List Stats → List Stats
count_test i stats =
    if is_empty i.statuses
    then stats
    else if is_empty i.tags
    then stats
    else if is_empty (completed_iterations i.statuses)
    then stats
    else count_in_all i stats

abbrev pub count_tests : List Tested → List Stats → List Stats
count_tests [] stats = stats
count_tests (i ∷ is) stats = count_tests is (count_test i stats)

-- The statistics; the records of the tests are for the count only, and are not returned.
unfoldable pub calc_category_stats : List Category → (no_run : Bool) → List Tested → List Stats
calc_category_stats cs no_run is = if no_run then new_stats cs else count_tests is (new_stats cs)
