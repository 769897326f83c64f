-- ===== src/Simmer/Simulators/Agreed.antt =====
-- When the tests of a run agree on a simulator.
use rules_verilog.Base.{
  ◌≡◌, refl, Bool, true, false, not, ◌&&◌, String, Option, List, [], ◌∷◌, ◌++◌, if◌then◌else◌,
  arith,
}
use rules_verilog.Results.Text.{str_eq}
use rules_verilog.Simmer.Simulators.{
  Groups, group, Resolved, resolved, mixed, conflict, simulator_of, group_tests, decide_simulator,
  resolve_run_simulator,
}

module _ (upper : String → String) (tests_to_simulator : String → Option String) where
  unfoldable pub all_use : String → List String → Bool
  all_use s [] = true
  all_use s (t ∷ ts) = str_eq (simulator_of upper tests_to_simulator t) s && all_use s ts

  -- Whether the groups are of one simulator.
  is_single : Groups → Bool
  is_single [] = true
  is_single (g ∷ []) = true
  is_single (g ∷ (h ∷ gs)) = false

  group-is_single :
      (s t : String) (g k : String × List String) (gs : Groups)
      → is_single (group s t (g ∷ (k ∷ gs))) ≡ false
  unfolding is_single
  group-is_single s t g k gs = ground arith

  -- Two groups stay two or more.
  group_tests_many :
      (ts : List String) (gs : Groups)
      → is_single gs ≡ false
      → is_single (group_tests upper tests_to_simulator ts gs) ≡ false
  unfolding is_single
  group_tests_many [] gs h = h
  group_tests_many (t ∷ ts) [] h = ground arith
  group_tests_many (t ∷ ts) (g ∷ []) h = ground arith
  group_tests_many (t ∷ ts) (g ∷ (k ∷ gs)) h =
      let s = simulator_of upper tests_to_simulator t in
      group_tests_many ts (group s t (g ∷ (k ∷ gs))) (group-is_single s t g k gs)

  group_tests_one :
      (ts : List String) (s : String) (tests : List String) (simulator : String) (explicit : Bool)
      → all_use s ts ≡ true
      → decide_simulator upper tests_to_simulator
          (group_tests upper tests_to_simulator ts ((s, tests) ∷ []))
          simulator
          explicit
        ≡ (if explicit && not (str_eq simulator s) then conflict simulator s else resolved s)
  unfolding all_use
  group_tests_one [] s tests simulator explicit h = refl
  group_tests_one (t ∷ ts) s tests simulator explicit h =
      ground (arith, group_tests_one ts s (tests ++ (t ∷ [])) simulator explicit)

  group_tests_other :
      (ts : List String) (s : String) (tests : List String)
      → all_use s ts ≡ false
      → is_single (group_tests upper tests_to_simulator ts ((s, tests) ∷ [])) ≡ false
  unfolding all_use is_single
  group_tests_other [] s tests h = ground arith
  group_tests_other (t ∷ ts) s tests h =
      let other = simulator_of upper tests_to_simulator t in
      ground (
        arith,
        group_tests_other ts s (tests ++ (t ∷ [])),
        group_tests_many ts ((s, tests) ∷ ((other, t ∷ []) ∷ [])),
      )

  unfoldable pub is_mixed : Resolved → Bool
  is_mixed (mixed gs) = true
  is_mixed _ = false

  decide_many :
      (gs : Groups) (simulator : String) (explicit : Bool)
      → is_single gs ≡ false
      → is_mixed (decide_simulator upper tests_to_simulator gs simulator explicit) ≡ true
  unfolding is_single is_mixed
  decide_many [] simulator explicit h = ground arith
  decide_many (g ∷ []) simulator explicit h = ground arith
  decide_many (g ∷ (k ∷ gs)) simulator explicit h = refl

  -- The simulator of a run with tests: when all of them use the simulator of the first one, it is that
  -- simulator, except that the run ends with the conflict when another one was asked for by name; and
  -- when some test uses another simulator, the run ends with the error for mixed simulators.
  pub resolve_run_simulator-all_use :
      (t : String) (ts : List String) (simulator : String) (explicit : Bool)
      → let s = simulator_of upper tests_to_simulator t in
        let result = resolve_run_simulator upper tests_to_simulator (t ∷ ts) simulator explicit in
        (all_use s ts ≡ true
          → result
            ≡ (if explicit && not (str_eq simulator s) then conflict simulator s else resolved s))
        × (all_use s ts ≡ false → is_mixed result ≡ true)
  unfolding resolve_run_simulator
  resolve_run_simulator-all_use t ts simulator explicit =
      let s = simulator_of upper tests_to_simulator t in
      (
        λ h. group_tests_one ts s (t ∷ []) simulator explicit h,
        λ h.
            decide_many (group_tests upper tests_to_simulator ts ((s, t ∷ []) ∷ [])) simulator
              explicit (group_tests_other ts s (t ∷ []) h),
      )
