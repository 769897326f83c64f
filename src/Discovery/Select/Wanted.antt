-- ===== src/Discovery/Select/Wanted.antt =====
-- What the selectors come to for one test, and that their order does not matter.
use Prim.Native.String.{◌++◌ as append}
use rules_verilog.Base.{
  ℕ, ◌≡◌, refl, ◌∙◌, sym, ap, Bool, true, false, ◌&&◌, String, none, some, List, [], ◌∷◌, ◌++◌, ap₂,
  if◌then◌else◌, arith,
}
use rules_verilog.Base.Int.{ℤ, pos, negsuc}
use rules_verilog.Discovery.Select.{
  Library, TestArg, Options, Globs, globs, critical, Tests, Benches, max_count, split_btglob,
  tags_fit, update_tests, update_benches, apply_globs, select_all, test_discovery_match,
  active_benches, active_if_any,
}

module _ (py : Library) (o : Options) (tests_to_tags : String → List String)
    (pwd benches_dir : String) where
  -- One selector, for one test of one bench.
  abbrev pub wanted_by : TestArg → Globs → String → String → ℕ → ℕ
  wanted_by ta critical vcomp test n = n
  wanted_by ta (globs b t k) vcomp test n =
      if py.fnmatch vcomp (append "*:" b)
        && (py.fnmatch test (append "*:" t) && tags_fit py o tests_to_tags ta (tests_to_tags test))
      then max_count n k
      else n

  -- The iterations of one test of one bench: the largest that a selector of it asks for.
  abbrev pub wanted : List TestArg → String → String → ℕ → ℕ
  wanted [] vcomp test n = n
  wanted (ta ∷ tas) vcomp test n =
      wanted tas vcomp test (wanted_by ta (split_btglob py pwd benches_dir ta.btiglob) vcomp test n)

  abbrev pub count_all : (String → ℕ → ℕ) → Tests → Tests
  count_all f [] = []
  count_all f ((test, n) ∷ tests) = (test, f test n) ∷ count_all f tests

  -- Every test with its iterations.
  abbrev pub wanted_all : List TestArg → Benches → Benches
  wanted_all tas [] = []
  wanted_all tas ((vcomp, tests) ∷ benches) =
      (vcomp, count_all (wanted tas vcomp) tests) ∷ wanted_all tas benches

  abbrev pub is_globs : Globs → Bool
  is_globs critical = false
  is_globs (globs b t k) = true

  abbrev pub are_globs : List TestArg → Bool
  are_globs [] = true
  are_globs (ta ∷ tas) = is_globs (split_btglob py pwd benches_dir ta.btiglob) && are_globs tas

  module _ (ta : TestArg) (b t : String) (k : ℤ) (tas : List TestArg)
      (e : split_btglob py pwd benches_dir ta.btiglob ≡ globs b t k) where
    step_test :
        (vcomp test : String) (n : ℕ)
        → wanted (ta ∷ tas) vcomp test n
          ≡ wanted tas vcomp test (wanted_by ta (globs b t k) vcomp test n)
    step_test vcomp test n = ap (λ g. wanted tas vcomp test (wanted_by ta g vcomp test n)) e

    matching_tests :
        (vcomp : String) (tests : Tests)
        → py.fnmatch vcomp (append "*:" b) ≡ true
        → count_all (wanted tas vcomp) (update_tests py o tests_to_tags ta t k tests)
          ≡ count_all (wanted (ta ∷ tas) vcomp) tests
    matching_tests vcomp [] h = refl
    matching_tests vcomp ((test, n) ∷ tests) h =
        ground (arith, matching_tests vcomp tests h, step_test vcomp test n)

    other_tests :
        (vcomp : String) (tests : Tests)
        → py.fnmatch vcomp (append "*:" b) ≡ false
        → count_all (wanted tas vcomp) tests ≡ count_all (wanted (ta ∷ tas) vcomp) tests
    other_tests vcomp [] h = refl
    other_tests vcomp ((test, n) ∷ tests) h =
        ground (arith, other_tests vcomp tests h, step_test vcomp test n)

    wanted_all-update :
        (benches : Benches)
        → wanted_all tas (update_benches py o tests_to_tags ta b t k benches)
          ≡ wanted_all (ta ∷ tas) benches
    wanted_all-update [] = refl
    wanted_all-update ((vcomp, tests) ∷ benches) =
        ground
          (arith, wanted_all-update benches, matching_tests vcomp tests, other_tests vcomp tests)

  select_all_lem :
      (tas : List TestArg) (benches : Benches)
      → select_all py o tests_to_tags pwd benches_dir tas benches
        ≡ (if are_globs tas then some (wanted_all tas benches) else none)
  unfolding select_all
  select_all_lem [] benches = ap some (sym (all_same benches))
    where
      tests_same : (vcomp : String) (tests : Tests) → count_all (wanted [] vcomp) tests ≡ tests
      tests_same vcomp [] = refl
      tests_same vcomp ((test, n) ∷ tests) = ap (λ l. (test, n) ∷ l) (tests_same vcomp tests)

      all_same : (bs : Benches) → wanted_all [] bs ≡ bs
      all_same [] = refl
      all_same ((vcomp, tests) ∷ bs) =
          ap₂ (λ l r. (vcomp, l) ∷ r) (tests_same vcomp tests) (all_same bs)
  select_all_lem (ta ∷ tas) benches =
      split (split_btglob py pwd benches_dir ta.btiglob) refl (select_all_lem tas)
    where
      split :
          (g : Globs)
          → split_btglob py pwd benches_dir ta.btiglob ≡ g
          → ((bs : Benches)
              → select_all py o tests_to_tags pwd benches_dir tas bs
                ≡ (if are_globs tas then some (wanted_all tas bs) else none))
          → (elim (apply_globs py o tests_to_tags ta g benches) [
            | none ↦ none
            | some updated ↦ select_all py o tests_to_tags pwd benches_dir tas updated
          ])
            ≡ (if is_globs g && are_globs tas then some (wanted_all (ta ∷ tas) benches) else none)
      split critical e rest = refl
      split (globs b t k) e rest =
          rest (update_benches py o tests_to_tags ta b t k benches)
          ∙ ap (λ l. if are_globs tas then some l else none)
              (wanted_all-update ta b t k tas e benches)

  -- The selection leaves exactly the tests that a selector asks for with a positive number of
  -- iterations, each with the largest number asked for, and the benches that have such a test; a
  -- malformed selector, anywhere in the list, ends the program.
  pub test_discovery_match-wanted :
      (benches : Benches)
      → test_discovery_match py o tests_to_tags pwd benches_dir benches
        ≡ (if are_globs o.tests then some (active_benches (wanted_all o.tests benches)) else none)
  unfolding test_discovery_match
  test_discovery_match-wanted benches =
      ap (active_if_any) (select_all_lem o.tests benches) ∙ split (are_globs o.tests)
    where
      split :
          (c : Bool)
          → active_if_any (if c then some (wanted_all o.tests benches) else none)
            ≡ (if c then some (active_benches (wanted_all o.tests benches)) else none)
      split true = refl
      split false = refl

  max_count_comm : (n : ℕ) (j k : ℤ) → max_count (max_count n j) k ≡ max_count (max_count n k) j
  max_count_comm n (pos j) (pos k) = ground arith
  max_count_comm n (pos j) (negsuc k) = refl
  max_count_comm n (negsuc j) k = refl

  wanted_by_comm :
      (ta tb : TestArg) (g h : Globs) (vcomp test : String) (n : ℕ)
      → wanted_by tb h vcomp test (wanted_by ta g vcomp test n)
        ≡ wanted_by ta g vcomp test (wanted_by tb h vcomp test n)
  wanted_by_comm ta tb critical h vcomp test n = refl
  wanted_by_comm ta tb (globs b t k) critical vcomp test n = refl
  wanted_by_comm ta tb (globs b t k) (globs b' t' k') vcomp test n =
      ground (arith, max_count_comm n k k')

  wanted-append :
      (tas tbs : List TestArg) (vcomp test : String) (n : ℕ)
      → wanted (tas ++ tbs) vcomp test n ≡ wanted tbs vcomp test (wanted tas vcomp test n)
  wanted-append [] tbs vcomp test n = refl
  wanted-append (ta ∷ tas) tbs vcomp test n =
      wanted-append tas tbs vcomp test
        (wanted_by ta (split_btglob py pwd benches_dir ta.btiglob) vcomp test n)

  pub wanted-wanted_by :
      (tas : List TestArg) (tb : TestArg) (g : Globs) (vcomp test : String) (n : ℕ)
      → wanted tas vcomp test (wanted_by tb g vcomp test n)
        ≡ wanted_by tb g vcomp test (wanted tas vcomp test n)
  wanted-wanted_by [] tb g vcomp test n = refl
  wanted-wanted_by (ta ∷ tas) tb g vcomp test n =
      let own = split_btglob py pwd benches_dir ta.btiglob in
      ap (wanted tas vcomp test) (wanted_by_comm tb ta g own vcomp test n)
      ∙ wanted-wanted_by tas tb g vcomp test (wanted_by ta own vcomp test n)

  wanted_comm :
      (tas tbs : List TestArg) (vcomp test : String) (n : ℕ)
      → wanted tbs vcomp test (wanted tas vcomp test n)
        ≡ wanted tas vcomp test (wanted tbs vcomp test n)
  wanted_comm [] tbs vcomp test n = refl
  wanted_comm (ta ∷ tas) tbs vcomp test n =
      let own = split_btglob py pwd benches_dir ta.btiglob in
      wanted_comm tas tbs vcomp test (wanted_by ta own vcomp test n)
      ∙ ap (wanted tas vcomp test) (wanted-wanted_by tbs ta own vcomp test n)

  wanted_swap :
      (tas tbs : List TestArg) (vcomp test : String) (n : ℕ)
      → wanted (tas ++ tbs) vcomp test n ≡ wanted (tbs ++ tas) vcomp test n
  wanted_swap tas tbs vcomp test n =
      wanted-append tas tbs vcomp test n
      ∙ wanted_comm tas tbs vcomp test n
      ∙ sym (wanted-append tbs tas vcomp test n)

  wanted_all_swap :
      (tas tbs : List TestArg) (benches : Benches)
      → wanted_all (tas ++ tbs) benches ≡ wanted_all (tbs ++ tas) benches
  wanted_all_swap tas tbs [] = refl
  wanted_all_swap tas tbs ((vcomp, tests) ∷ benches) =
      ap₂ (λ l r. (vcomp, l) ∷ r) (counts tests) (wanted_all_swap tas tbs benches)
    where
      counts :
          (ts : Tests)
          → count_all (wanted (tas ++ tbs) vcomp) ts ≡ count_all (wanted (tbs ++ tas) vcomp) ts
      counts [] = refl
      counts ((test, n) ∷ ts) =
          ap₂ (λ k l. (test, k) ∷ l) (wanted_swap tas tbs vcomp test n) (counts ts)

  are_globs-append :
      (tas tbs : List TestArg) → are_globs (tas ++ tbs) ≡ (are_globs tas && are_globs tbs)
  are_globs-append [] tbs = refl
  are_globs-append (ta ∷ tas) tbs = ground (arith, are_globs-append tas tbs)

  are_globs_swap : (tas tbs : List TestArg) → are_globs (tas ++ tbs) ≡ are_globs (tbs ++ tas)
  are_globs_swap tas tbs = ground (arith, are_globs-append tas tbs, are_globs-append tbs tas)

  -- The order in which two groups of selectors stand on the command line does not matter: the loop
  -- over the selectors leaves the same tests with the same iterations.
  pub select_all-append_comm :
      (tas tbs : List TestArg) (benches : Benches)
      → select_all py o tests_to_tags pwd benches_dir (tas ++ tbs) benches
        ≡ select_all py o tests_to_tags pwd benches_dir (tbs ++ tas) benches
  select_all-append_comm tas tbs benches =
      select_all_lem (tas ++ tbs) benches
      ∙ ap₂ (λ c l. if c then some l else none) (are_globs_swap tas tbs)
          (wanted_all_swap tas tbs benches)
      ∙ sym (select_all_lem (tbs ++ tas) benches)
