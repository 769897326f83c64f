-- ===== src/Discovery/Select/Asked.antt =====
-- What the selection comes to, told without the loops that compute it.
use Prim.Native.String.{◌++◌ as append}
use rules_verilog.Base.{
  ℕ, ◌+◌, ◌-◌, ◌≡◌, refl, ◌∙◌, ap, ap₂, Bool, true, false, not, ◌&&◌, any, String, none, some, List,
  [], ◌∷◌, ◌++◌, ltb, if◌then◌else◌, arith,
}
use rules_verilog.Base.Int.{ℤ, pos, negsuc}
use rules_verilog.Results.Text.{has, meets}
use rules_verilog.Discovery.Select.{
  Library, TestArg, Options, Globs, globs, critical, Tests, Benches, within, max_count,
  split_btglob, tags_fit, test_discovery_match, active_tests, active_benches, keep_bench,
}
use rules_verilog.Discovery.Select.Selector.{selector, split_btglob-selector}
use rules_verilog.Discovery.Select.Wanted.{
  wanted_by, wanted, count_all, wanted_all, are_globs, wanted-wanted_by,
  test_discovery_match-wanted,
}

abbrev pub all_in : List String → List String → Bool
all_in ts tags = not (any (λ t. not (has t tags)) ts)

abbrev pub one_in : List String → List String → Bool
one_in ts tags = any (λ t. has t tags) ts

-- The larger of two numbers, the second of which may be negative.
abbrev pub most : ℕ → ℤ → ℕ
most n (pos k) = n + (k - n)
most n (negsuc k) = n

abbrev pub if_any : String → Tests → Benches
if_any vcomp [] = []
if_any vcomp (t ∷ tests) = (vcomp, t ∷ tests) ∷ []

module _ (py : Library) (o : Options) (tests_to_tags : String → List String)
    (pwd benches_dir : String) where
  -- The tags that a selector wants are tags of the test, and none that it does not want, and so for
  -- the tags of the command line.
  abbrev pub fits : TestArg → List String → Bool
  fits ta tags =
      all_in ta.tag tags
      && not (one_in ta.ntag tags)
      && all_in o.global_tag tags
      && not (one_in o.global_ntag tags)

  abbrev pub selects : TestArg → (bench_glob test_glob : String) → String → String → Bool
  selects ta b t vcomp test =
      py.fnmatch vcomp (append "*:" b)
      && (py.fnmatch test (append "*:" t) && fits ta (tests_to_tags test))

  abbrev pub asked_by : TestArg → Globs → String → String → ℕ → ℕ
  asked_by ta critical vcomp test n = n
  asked_by ta (globs b t k) vcomp test n = if selects ta b t vcomp test then most n k else n

  -- The largest number of iterations that a selector of the test asks for, or the one it has.
  abbrev pub asked : List TestArg → String → String → ℕ → ℕ
  asked [] vcomp test n = n
  asked (ta ∷ tas) vcomp test n =
      asked_by ta (selector py pwd benches_dir ta.btiglob) vcomp test (asked tas vcomp test n)

  abbrev pub selected_tests : String → Tests → Tests
  selected_tests vcomp [] = []
  selected_tests vcomp ((test, n) ∷ tests) =
      (if ltb 0 (asked o.tests vcomp test n) then (test, asked o.tests vcomp test n) ∷ [] else [])
      ++ selected_tests vcomp tests

  abbrev pub selected_benches : Benches → Benches
  selected_benches [] = []
  selected_benches ((vcomp, tests) ∷ benches) =
      if_any vcomp (selected_tests vcomp tests) ++ selected_benches benches

  abbrev pub is_malformed : TestArg → Bool
  is_malformed ta = elim (selector py pwd benches_dir ta.btiglob) [
    | critical ↦ true
    | globs b t k ↦ false
  ]

  within-all_in : (ts tags : List String) → within ts tags ≡ all_in ts tags
  within-all_in [] tags = refl
  within-all_in (t ∷ ts) tags = ground (arith, within-all_in ts tags)

  meets-one_in : (ts tags : List String) → meets ts tags ≡ one_in ts tags
  meets-one_in [] tags = refl
  meets-one_in (t ∷ ts) tags = ground (arith, meets-one_in ts tags)

  tags_fit-fits :
      (ta : TestArg) (tags : List String) → tags_fit py o tests_to_tags ta tags ≡ fits ta tags
  tags_fit-fits ta tags =
      simp
        (
          within-all_in ta.tag tags,
          meets-one_in ta.ntag tags,
          within-all_in o.global_tag tags,
          meets-one_in o.global_ntag tags,
        )
        refl

  max_count-most : (n : ℕ) (k : ℤ) → max_count n k ≡ most n k
  max_count-most n (pos k) = ground arith
  max_count-most n (negsuc k) = refl

  wanted_by-asked_by :
      (ta : TestArg) (g : Globs) (vcomp test : String) (n : ℕ)
      → wanted_by py o tests_to_tags pwd benches_dir ta g vcomp test n ≡ asked_by ta g vcomp test n
  wanted_by-asked_by ta critical vcomp test n = refl
  wanted_by-asked_by ta (globs b t k) vcomp test n =
      ap₂
        (λ f c.
          if py.fnmatch vcomp (append "*:" b) && (py.fnmatch test (append "*:" t) && f)
          then c
          else n)
        (tags_fit-fits ta (tests_to_tags test)) (max_count-most n k)

  wanted-asked :
      (tas : List TestArg) (vcomp test : String) (n : ℕ)
      → wanted py o tests_to_tags pwd benches_dir tas vcomp test n ≡ asked tas vcomp test n
  wanted-asked [] vcomp test n = refl
  wanted-asked (ta ∷ tas) vcomp test n =
      let g = split_btglob py pwd benches_dir ta.btiglob in
      wanted-wanted_by py o tests_to_tags pwd benches_dir tas ta g vcomp test n
      ∙ wanted_by-asked_by ta g vcomp test
          (wanted py o tests_to_tags pwd benches_dir tas vcomp test n)
      ∙ ap
          (λ h.
            asked_by ta h vcomp test (wanted py o tests_to_tags pwd benches_dir tas vcomp test n))
          (split_btglob-selector py pwd benches_dir ta.btiglob)
      ∙ ap (asked_by ta (selector py pwd benches_dir ta.btiglob) vcomp test)
          (wanted-asked tas vcomp test n)

  active_tests-selected :
      (vcomp : String) (tests : Tests)
      → active_tests (
          count_all py o tests_to_tags pwd benches_dir
            (wanted py o tests_to_tags pwd benches_dir o.tests vcomp)
            tests)
        ≡ selected_tests vcomp tests
  active_tests-selected vcomp [] = refl
  active_tests-selected vcomp ((test, n) ∷ tests) =
      ground (arith, wanted-asked o.tests vcomp test n, active_tests-selected vcomp tests)

  keep_bench-if_any :
      (vcomp : String) (tests : Tests) (benches : Benches)
      → keep_bench vcomp tests benches ≡ if_any vcomp tests ++ benches
  keep_bench-if_any vcomp [] benches = refl
  keep_bench-if_any vcomp (t ∷ tests) benches = refl

  active_benches-selected :
      (benches : Benches)
      → active_benches (wanted_all py o tests_to_tags pwd benches_dir o.tests benches)
        ≡ selected_benches benches
  active_benches-selected [] = refl
  active_benches-selected ((vcomp, tests) ∷ benches) =
      keep_bench-if_any vcomp
        (active_tests (
          count_all py o tests_to_tags pwd benches_dir
            (wanted py o tests_to_tags pwd benches_dir o.tests vcomp) tests))
        (active_benches (wanted_all py o tests_to_tags pwd benches_dir o.tests benches))
      ∙ ap₂ (λ ts bs. if_any vcomp ts ++ bs) (active_tests-selected vcomp tests)
          (active_benches-selected benches)

  are_globs-is_malformed :
      (tas : List TestArg)
      → are_globs py o tests_to_tags pwd benches_dir tas ≡ not (any is_malformed tas)
  are_globs-is_malformed [] = refl
  are_globs-is_malformed (ta ∷ tas) =
      ground
        (arith, are_globs-is_malformed tas, split_btglob-selector py pwd benches_dir ta.btiglob)

  -- The selection leaves exactly the tests that a selector selects, by its globs and by the tags,
  -- with a positive number of iterations, each with the largest number
  -- asked for, and the benches that have such a test, all in their order; a malformed selector,
  -- anywhere in the list, ends the program.
  pub test_discovery_match-asked :
      (benches : Benches)
      → test_discovery_match py o tests_to_tags pwd benches_dir benches
        ≡ (if any is_malformed o.tests then none else some (selected_benches benches))
  test_discovery_match-asked benches =
      test_discovery_match-wanted py o tests_to_tags pwd benches_dir benches
      ∙ ap₂ (λ c l. if c then some l else none) (are_globs-is_malformed o.tests)
          (active_benches-selected benches)
      ∙ ground arith
