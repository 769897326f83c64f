-- ===== src/Discovery/Examples.antt =====
-- Runs and instances for the discovery.
use rules_verilog.Base.{
  any, ℕ, ◌≡◌, refl, true, false, String, none, some, List, [], ◌∷◌, ◌==◌, if◌then◌else◌,
}
use rules_verilog.Base.Int.{pos}
use rules_verilog.Results.Text.{str_eq}
use rules_verilog.Discovery.Chunks.{chunk_arguments, concat, AreChunks, chunk_arguments-AreChunks}
use rules_verilog.Discovery.Select.{Library, TestArg, Options, Benches, test_discovery_match}
use rules_verilog.Discovery.Select.Asked.{
  is_malformed, selected_benches, test_discovery_match-asked,
}
use rules_verilog.Discovery.Cache.{
  Manifest, Generation, Store, missing, should_use_cached_discovery, publish_discovery_cache,
  is_cacheable, same_manifest,
}
use rules_verilog.Discovery.Cache.Laws.{Source, should_use-publish, should_use-current}
use rules_verilog.Discovery.Refresh.{Round, test_discovery_all}

-- Arguments of 3, 4, 9 and 1 characters, for a limit of 10.
abbrev arguments : List ℕ
arguments = 3 ∷ 4 ∷ 9 ∷ 1 ∷ []

chunks_run : chunk_arguments (λ n. n) 10 arguments ≡ (3 ∷ 4 ∷ []) ∷ (9 ∷ []) ∷ (1 ∷ []) ∷ []
unfolding chunk_arguments
chunks_run = refl

chunk_arguments-AreChunks_example :
    (concat (λ n. n) 10 (chunk_arguments (λ n. n) 10 arguments) ≡ arguments)
    × AreChunks (λ n. n) 10 (chunk_arguments (λ n. n) 10 arguments)
chunk_arguments-AreChunks_example = chunk_arguments-AreChunks (λ n. n) 10 arguments

-- Texts that are split as the selectors below need it; every pattern but `*:none` matches.
abbrev python : Library
python = record {
  fnmatch = λ name pattern. if str_eq pattern "*:none" then false else true;
  split = λ separator text.
      if str_eq separator "@"
      then (if str_eq text "*:*@3" then "*:*" ∷ ("3" ∷ []) else text ∷ [])
      else (if str_eq text "*:*" then "*" ∷ ("*" ∷ []) else text ∷ []);
  int = λ text. if str_eq text "3" then some (pos 3) else none;
  contains = λ part text. false;
  drop = λ n text. text;
}

abbrev three_times : TestArg
three_times = record { btiglob = "*:*@3"; tag = "smoke" ∷ []; ntag = [] }

abbrev once : TestArg
once = record { btiglob = "*:*"; tag = []; ntag = "slow" ∷ [] }

abbrev selectors : Options
selectors = record { tests = three_times ∷ once ∷ []; global_tag = []; global_ntag = [] }

abbrev tags : String → List String
tags test = if str_eq test "a" then "smoke" ∷ [] else if str_eq test "b" then "slow" ∷ [] else []

abbrev benches : Benches
benches = ("//top", ("a", 0) ∷ ("b", 0) ∷ ("c", 0) ∷ []) ∷ (("//other", []) ∷ [])

selection_run :
    test_discovery_match python selectors tags "" "benches" benches
    ≡ some (("//top", ("a", 3) ∷ ("c", 1) ∷ []) ∷ [])
unfolding test_discovery_match
selection_run = refl

test_discovery_match-asked_example :
    test_discovery_match python selectors tags "" "benches" benches ≡ (
      if any (is_malformed python selectors tags "" "benches") selectors.tests
      then none
      else some (selected_benches python selectors tags "" "benches" benches))
test_discovery_match-asked_example =
    test_discovery_match-asked python selectors tags "" "benches" benches

abbrev manifest : Manifest
manifest = record {
  discovery_query = some "kind(dv_tb, //benches/...)";
  allow_no_run = some false;
  cacheable = none;
  inputs = "WORKSPACE";
}

abbrev generation : Generation
generation = record {
  all_vcomp = "{}";
  tests_to_tags = "{}";
  tests_to_simulator = "{}";
  manifest = manifest;
}

abbrev empty_store : Store
empty_store = record { cache = missing; legacy = missing }

should_use-publish_example :
    let s = publish_discovery_cache "scope" generation empty_store in
    should_use_cached_discovery "scope" manifest s s ≡ (some generation, s)
should_use-publish_example = should_use-publish "scope" generation empty_store refl

abbrev published : Store
published = publish_discovery_cache "scope" generation empty_store

published_run : (should_use_cached_discovery "scope" manifest empty_store published).0 ≡ none
unfolding should_use_cached_discovery
published_run = refl

published_used :
    (should_use_cached_discovery "scope" manifest published published).0 ≡ some generation
unfolding should_use_cached_discovery publish_discovery_cache
published_used = refl

should_use-current_example :
    (same_manifest generation.manifest manifest ≡ true)
    × (is_cacheable generation.manifest ≡ true)
    × Source "scope" published published generation
should_use-current_example =
    should_use-current "scope" manifest published published generation published_used

-- The checkout changes during the first round.
abbrev changed_once : ℕ → Round ℕ
changed_once i = record {
  manifest_before = manifest;
  found = i;
  manifest_after = if i == 0 then record manifest { inputs = "new" } else manifest;
}

second_round : test_discovery_all changed_once ≡ some 1
unfolding test_discovery_all
second_round = refl
