-- ===== src/CheckTest/Examples.antt =====
-- Runs and instances for the log check, with patterns that are plain texts.
use rules_verilog.Base.{
  ℕ, suc, ◌≤◌, ◌≡◌, refl, false, String, none, some, List, [], ◌∷◌, any, arith, if◌then◌else◌,
}
use rules_verilog.Results.Text.{str_eq}
use rules_verilog.CheckTest.{
  Patterns, Options, main, pass, errors, scan_lines, empty_scan, update_signatures,
}
use rules_verilog.CheckTest.Signatures.{
  occurrences, after, directive, AreUnique, update_signatures-occurrences,
}

-- A pattern matches a line that is equal to it, and the line "on" enables the signature "X".
abbrev equal_lines : ℕ → List String → List String → List (ℕ × String)
equal_lines n patterns [] = []
equal_lines n patterns (line ∷ lines) =
    let rest = equal_lines (suc n) patterns lines in
    if any (λ q. str_eq q line) patterns then (n, line) ∷ rest else rest

abbrev plain : Patterns
plain = record {
  search = str_eq;
  matches = equal_lines 0;
  contains = λ text line. if str_eq line "on" then str_eq text "TEST_CHECK_ENABLE" else false;
  enable_match = λ line. if str_eq line "on" then some "X" else none;
  disable_match = λ line. none;
}

abbrev options : Options
options = record { error_limit = 25; pass_pattern = "done" ∷ []; fail_pattern = [] }

abbrev log : List String
log = "start" ∷ "X" ∷ "done" ∷ []

main_runs :
    (main plain options [] 0 (some (10, log)) ≡ pass)
    × (main plain options ("X" ∷ []) 0 (some (10, log)) ≡ errors)
unfolding main
main_runs = (refl, refl)

-- A match that crosses a line is found in the mapped file, and in no line of it.
abbrev crossing : Patterns
crossing = record plain { matches = λ patterns lines. (1, "UVM_ERROR :7") ∷ [] }

crossing_fails :
    (main crossing options ("X" ∷ []) 0 (some (10, "done" ∷ "UVM_ERROR :" ∷ "7" ∷ [])) ≡ errors)
    × ((scan_lines crossing options
          ("done" ∷ "UVM_ERROR :" ∷ "7" ∷ [])
          ("X" ∷ [])
          (empty_scan crossing options)).error_lines
        ≡ [])
unfolding main scan_lines
crossing_fails = (refl, refl)

none_active : AreUnique []
none_active s = omega arith

update_signatures-occurrences_example :
    (occurrences "X" (update_signatures plain "on" []).1 ≡ after (directive plain "on") "X" [])
    × (occurrences "X" (update_signatures plain "on" []).1 ≤ 1)
update_signatures-occurrences_example = update_signatures-occurrences plain "on" "X" [] none_active
