-- ===== src/Discovery/Select.antt =====
-- lib/regression.py, RegressionConfig._split_btglob and test_discovery_match: the selectors of the
-- command line choose among the discovered tests. `fnmatch`, `split` at a separator, `int` and the
-- test of a text for a part of it belong to Python's library and are parameters.
pub mod Selector
pub mod Asked
pub mod Wanted
use Prim.Native.String.{◌++◌ as append, len}
use rules_verilog.Base.{
  ℕ, zero, suc, ◌+◌, ◌<◌, Bool, true, false, not, ◌&&◌, ◌||◌, String, Option, none, some, List, [],
  ◌∷◌, ltb, ◌==◌, if◌then◌else◌,
}
use rules_verilog.Base.Int.{ℤ, pos, negsuc}
use rules_verilog.Results.Text.{has, meets, str_eq}

pub record Library : Type 0 where
  pub fnmatch : String → String → Bool  -- `fnmatch.fnmatch(name, pattern)`
  pub split : String → String → List String  -- `text.split(separator)`
  pub int : String → Option ℤ  -- `none` is the ValueError
  pub contains : String → String → Bool  -- `part in text`, the part first
  pub drop : ℕ → String → String  -- `text[n:]`

-- One `-t` of the command line with the tags behind it.
pub record TestArg : Type 0 where
  pub btiglob : String
  pub tag : List String
  pub ntag : List String

pub record Options : Type 0 where
  pub tests : List TestArg
  pub global_tag : List String
  pub global_ntag : List String

-- The result of `_split_btglob`, or its exit by `log.critical`.
pub data Globs : Type 0 where
  globs : (bench test : String) → ℤ → Globs
  critical : Globs

-- A dictionary of tests with their iterations, and one of benches with their tests.
abbrev pub Tests : Type 0
Tests = List (String × ℕ)

abbrev pub Benches : Type 0
Benches = List (String × Tests)

abbrev pub within : List String → List String → Bool
within [] tags = true
within (t ∷ ts) tags = has t tags && within ts tags

-- `max(tests[test], iterations)`: a count is never negative.
abbrev pub max_count : ℕ → ℤ → ℕ
max_count n (pos k) = if ltb n k then k else n
max_count n (negsuc k) = n

abbrev pub nonzero : ℕ → Bool
nonzero zero = false
nonzero (suc n) = true

-- `Remove inactive tests and vcomponents`.
abbrev pub active_tests : Tests → Tests
active_tests [] = []
active_tests ((test, n) ∷ tests) =
    if nonzero n then (test, n) ∷ active_tests tests else active_tests tests

abbrev pub keep_bench : String → Tests → Benches → Benches
keep_bench vcomp [] benches = benches
keep_bench vcomp (t ∷ tests) benches = (vcomp, t ∷ tests) ∷ benches

abbrev pub active_benches : Benches → Benches
active_benches [] = []
active_benches ((vcomp, tests) ∷ benches) =
    keep_bench vcomp (active_tests tests) (active_benches benches)

abbrev pub active_if_any : Option Benches → Option Benches
active_if_any none = none
active_if_any (some benches) = some (active_benches benches)

module _ (py : Library) where
  abbrev pub iterations_of : Option ℤ → (String × String) → Globs
  iterations_of none _ = critical
  iterations_of (some n) (b, t) = globs b t n

  -- The second half: `bench:test`, or a test of the bench directory that is the current one.
  abbrev pub bench_and_test :
      (pwd benches_dir : String) → String → List String → Option (String × String)
  bench_and_test pwd benches_dir btglob (b ∷ (t ∷ [])) = some (b, t)
  bench_and_test pwd benches_dir btglob _ =
      if py.contains benches_dir pwd && ltb (len benches_dir) (len pwd)
      then some (py.drop (len benches_dir + 1) pwd, btglob)
      else none

  abbrev pub join_globs : Option ℤ → Option (String × String) → Globs
  join_globs iterations none = critical
  join_globs iterations (some bt) = iterations_of iterations bt

  abbrev pub split_at : (pwd benches_dir : String) → String → List String → Globs
  split_at pwd benches_dir btiglob (btglob ∷ (iterations ∷ [])) =
      join_globs (py.int iterations) (bench_and_test pwd benches_dir btglob (py.split ":" btglob))
  split_at pwd benches_dir btiglob _ =
      join_globs (some (pos 1)) (bench_and_test pwd benches_dir btiglob (py.split ":" btiglob))

  unfoldable pub split_btglob : (pwd benches_dir : String) → String → Globs
  split_btglob pwd benches_dir btiglob = split_at pwd benches_dir btiglob (py.split "@" btiglob)

  module _ (o : Options) (tests_to_tags : String → List String) where
    -- The four `continue` of the loop over the tests, negated.
    abbrev pub tags_fit : TestArg → List String → Bool
    tags_fit ta tags =
        within ta.tag tags
        && not (meets ta.ntag tags)
        && within o.global_tag tags
        && not (meets o.global_ntag tags)

    -- The loop over the matching tests of one bench. The names of a dictionary are all different, so
    -- each entry is met once.
    abbrev pub update_tests : TestArg → String → ℤ → Tests → Tests
    update_tests ta tglob iterations [] = []
    update_tests ta tglob iterations ((test, n) ∷ tests) =
        let rest = update_tests ta tglob iterations tests in
        if py.fnmatch test (append "*:" tglob) && tags_fit ta (tests_to_tags test)
        then (test, max_count n iterations) ∷ rest
        else (test, n) ∷ rest

    abbrev pub update_benches : TestArg → String → String → ℤ → Benches → Benches
    update_benches ta bglob tglob iterations [] = []
    update_benches ta bglob tglob iterations ((vcomp, tests) ∷ benches) =
        let rest = update_benches ta bglob tglob iterations benches in
        if py.fnmatch vcomp (append "*:" bglob)
        then (vcomp, update_tests ta tglob iterations tests) ∷ rest
        else (vcomp, tests) ∷ rest

    abbrev pub apply_globs : TestArg → Globs → Benches → Option Benches
    apply_globs ta critical benches = none
    apply_globs ta (globs b t n) benches = some (update_benches ta b t n benches)

    module _ (pwd benches_dir : String) where
      -- The loop over the selectors. `none` is the exit of `log.critical`.
      unfoldable pub select_all : List TestArg → Benches → Option Benches
      unfolding split_btglob
      select_all [] benches = some benches
      select_all (ta ∷ tas) benches =
          elim (apply_globs ta (split_btglob pwd benches_dir ta.btiglob) benches) [
            | none ↦ none
            | some updated ↦ select_all tas updated
          ]

      unfoldable pub test_discovery_match : Benches → Option Benches
      unfolding select_all
      test_discovery_match all_vcomp = active_if_any (select_all o.tests all_vcomp)

-- The sum over all tests, which must not be 0.
abbrev pub count_tests : Tests → ℕ
count_tests [] = 0
count_tests ((_, n) ∷ tests) = n + count_tests tests

abbrev pub total_tests : Benches → ℕ
total_tests [] = 0
total_tests ((_, tests) ∷ benches) = count_tests tests + total_tests benches

abbrev pub resolve_report_generation : Option Bool → ℕ → Bool
resolve_report_generation none total = ltb 1 total
resolve_report_generation (some b) total = b

-- `self.tidy`: with several tests, no waves and no `--nt`.
unfoldable pub tidy : (total : ℕ) (waves nt : Bool) → Bool
tidy total waves nt = not (total == 1) && not waves && not nt
