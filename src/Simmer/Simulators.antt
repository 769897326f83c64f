-- ===== src/Simmer/Simulators.antt =====
-- bin/simmer.py, resolve_run_simulator: the one simulator of a run. Of the messages, the groups of the
-- tests are kept.
pub mod Agreed
use rules_verilog.Base.{
  Bool, true, false, not, ◌&&◌, String, Option, none, some, List, [], ◌∷◌, ◌++◌, if◌then◌else◌,
}
use rules_verilog.Results.Text.{str_eq}

abbrev pub Groups : Type 0
Groups = List (String × List String)

-- `setdefault(simulator, []).append(test)`.
abbrev pub group : String → String → Groups → Groups
group simulator test [] = (simulator, test ∷ []) ∷ []
group simulator test ((s, tests) ∷ gs) =
    if str_eq simulator s
    then (s, tests ++ (test ∷ [])) ∷ gs
    else (s, tests) ∷ group simulator test gs

-- How the function ends: with the simulator of the run, or with one of its two exits.
pub data Resolved : Type 0 where
  resolved : String → Resolved
  mixed : Groups → Resolved
  conflict : (given selected : String) → Resolved

-- `str.upper` and `rcfg.tests_to_simulator` are parameters.
module _ (upper : String → String) (tests_to_simulator : String → Option String) where
  abbrev pub simulator_of : String → String
  simulator_of test = upper (elim (tests_to_simulator test) [ none ↦ "XRUN" | some s ↦ s ])

  -- The loops over the selected tests.
  abbrev pub group_tests : List String → Groups → Groups
  group_tests [] gs = gs
  group_tests (t ∷ ts) gs = group_tests ts (group (simulator_of t) t gs)

  abbrev pub decide_simulator : Groups → (simulator : String) → (explicit : Bool) → Resolved
  decide_simulator [] simulator explicit = resolved simulator
  decide_simulator ((s, tests) ∷ []) simulator explicit =
      if explicit && not (str_eq simulator s) then conflict simulator s else resolved s
  decide_simulator (g ∷ (h ∷ gs)) simulator explicit = mixed (g ∷ (h ∷ gs))

  unfoldable pub resolve_run_simulator :
      List String → (simulator : String) → (explicit : Bool) → Resolved
  resolve_run_simulator tests simulator explicit =
      decide_simulator (group_tests tests []) simulator explicit
