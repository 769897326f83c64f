-- ===== src/CheckTest.antt =====
-- bin/check_test.py: whether the log of a simulation is that of a test that passed. Regular
-- expressions belong to Python's library and are parameters: `search` says whether a pattern matches
-- inside a line, `matches` where patterns match in a whole file, `contains` whether a text occurs in a
-- line, and the two directive patterns give the signature that they capture. A log is the list of its
-- lines, after the line ends of Windows are normalized. A match in a file may cross lines, so the search
-- over the mapped file and the loop over the lines may differ.
pub mod Signatures
mod Examples
use rules_verilog.Base.{
  ℕ, Bool, true, false, not, ◌&&◌, ◌||◌, String, Option, none, some, List, [], ◌∷◌, ◌++◌, length,
  any, elem, leb, ltb, if◌then◌else◌,
}
use rules_verilog.Results.Text.{str_eq}

pub record Patterns : Type 0 where
  pub search : String → String → Bool  -- `re.search(pattern, line)`
  -- `finditer` over a file, with the alternation of the patterns: for each match the number of the line
  -- in which it starts, and the text from the start of that line to the end of the line in which the
  -- match ends.
  pub matches : List String → List String → List (ℕ × String)
  pub contains : String → String → Bool  -- `text in line`
  pub enable_match : String → Option String  -- `enable_regex.match(line)`, its group 1
  pub disable_match : String → Option String

-- `finish_signatures`.
abbrev pub finish_signatures : List String
finish_signatures =
    "#I Final Report" ∷ "finish at simulation time" ∷ "Simulation complete via"
    ∷ "--- UVM Report Summary ---" ∷ []

abbrev pub has_signature : String → List String → Bool
has_signature s [] = false
has_signature s (t ∷ ts) = str_eq s t || has_signature s ts

-- `list.remove`.
abbrev pub remove_signature : String → List String → List String
remove_signature s [] = []
remove_signature s (t ∷ ts) = if str_eq s t then ts else t ∷ remove_signature s ts

-- The command line: `--error-limit`, `--pass-pattern` and `--fail-pattern`. A limit below 0 acts
-- like 0.
pub record Options : Type 0 where
  pub error_limit : ℕ
  pub pass_pattern : List String
  pub fail_pattern : List String

pub record Scan : Type 0 where
  pub error_lines : List String
  pub seed_lines : List String
  pub run_time_lines : List String
  pub found_finish : Bool

pub data Next : Type 0 where
  stop next : List String → Scan → Next

abbrev pub no_match : List (ℕ × String) → Bool
no_match [] = true
no_match (_ ∷ _) = false

module _ (p : Patterns) where
  -- A search with `compile_patterns(patterns)`: the alternation matches where one pattern does, and
  -- the empty list gives a regular expression that matches nothing.
  abbrev pub search_any : List String → String → Bool
  search_any patterns line = any (λ q. p.search q line) patterns

  abbrev pub enable : Option String → List String → Bool × List String
  enable none active = (false, active)
  enable (some s) active =
      if has_signature s active then (false, active) else (true, active ++ (s ∷ []))

  abbrev pub disable : Option String → List String → Bool × List String
  disable none active = (false, active)
  disable (some s) active =
      if has_signature s active then (true, remove_signature s active) else (false, active)

  unfoldable pub update_signatures : String → List String → Bool × List String
  update_signatures line active =
      if p.contains "TEST_CHECK_ENABLE" line
      then enable (p.enable_match line) active
      else if p.contains "TEST_CHECK_DISABLE" line
      then disable (p.disable_match line) active
      else (false, active)

  abbrev pub is_seed_line : String → Bool
  is_seed_line line = p.contains "SVSEED" line || p.contains "random seed used" line

  abbrev pub is_run_time_line : String → Bool
  is_run_time_line line = p.contains "real\t" line && p.contains "user\t" line

  module _ (o : Options) where
    abbrev pub is_error : List String → String → Bool
    is_error active line = search_any active line || search_any o.fail_pattern line

    -- `project_pass_regex` where it is given, else `finish_regex`.
    abbrev pub finish_patterns : List String → List String
    finish_patterns [] = finish_signatures
    finish_patterns (q ∷ qs) = q ∷ qs

    abbrev pub is_finish : String → Bool
    is_finish line = search_any (finish_patterns o.pass_pattern) line

    -- The body of the loop over the lines, for a line that is no directive.
    abbrev pub scan_line : String → List String → Scan → Next
    scan_line line active s =
        if is_error active line
        then (if leb o.error_limit (length (s.error_lines ++ (line ∷ [])))
            then stop active (record s { error_lines = s.error_lines ++ (line ∷ []) })
            else next active (record s { error_lines = s.error_lines ++ (line ∷ []) }))
        else if not s.found_finish && is_finish line
        then next active (record s { found_finish = true })
        else if is_seed_line line
        then next active (record s { seed_lines = s.seed_lines ++ (line ∷ []) })
        else if is_run_time_line line
        then next active (record s { run_time_lines = s.run_time_lines ++ (line ∷ []) })
        else next active s

    abbrev pub scan_updated : String → Bool × List String → Scan → Next
    scan_updated line (updated, active) s =
        if updated then next active s else scan_line line active s

    unfoldable pub scan_body : String → List String → Scan → Next
    unfolding update_signatures
    scan_body line active s =
        scan_updated line
          (if p.contains "TEST_CHECK_" line then update_signatures line active else (false, active))
          s

    -- The loop over the lines, with the signatures that are active.
    unfoldable pub scan_lines : List String → List String → Scan → Scan
    unfolding scan_body
    scan_lines [] active s = s
    scan_lines (line ∷ lines) active s = elim (scan_body line active s) [
      | stop active' s' ↦ s'
      | next active' s' ↦ scan_lines lines active' s'
    ]

    -- The loop of `scan_static_log` over the matches.
    unfoldable pub static_errors :
        (seen_line_starts : List ℕ) → (error_lines : List String) → List (ℕ × String) → List String
    static_errors seen found [] = found
    static_errors seen found ((start, text) ∷ found_matches) =
        let more = static_errors (start ∷ seen) (found ++ (text ∷ [])) found_matches in
        let rest = static_errors seen found found_matches in
        if elem start seen
        then rest
        else if leb o.error_limit (length (found ++ (text ∷ [])))
        then found ++ (text ∷ [])
        else more

    abbrev pub keep_if : (String → Bool) → List String → List String
    keep_if test [] = []
    keep_if test (l ∷ ls) = if test l then l ∷ keep_if test ls else keep_if test ls

    abbrev pub empty_scan : Scan
    empty_scan = record {
      error_lines = [];
      seed_lines = [];
      run_time_lines = [];
      found_finish = false;
    }

    -- The finish texts stand within a line; a pass pattern is searched in the whole file.
    abbrev pub static_finish : List String → List String → Bool
    static_finish [] lines = any (λ line. any (λ s. p.contains s line) finish_signatures) lines
    static_finish (q ∷ qs) lines = not (no_match (p.matches (q ∷ qs) lines))

    -- `scan_static_log`: nothing for a log with directives.
    unfoldable pub scan_static_log : List String → List String → Option Scan
    unfolding static_errors
    scan_static_log active [] = some empty_scan
    scan_static_log active (first ∷ more) =
        let lines = first ∷ more in
        if any (p.contains "TEST_CHECK_") lines
        then none
        else some (record {
          error_lines = static_errors [] [] (p.matches (active ++ o.fail_pattern) lines);
          seed_lines = keep_if is_seed_line lines;
          run_time_lines = keep_if is_run_time_line lines;
          found_finish = static_finish o.pass_pattern lines;
        })

    abbrev pub scan_or : Option Scan → Scan → Scan
    scan_or none s = s
    scan_or (some t) s = t

    unfoldable pub scan : List String → List String → Scan
    unfolding scan_lines scan_static_log
    scan active lines = scan_or (scan_static_log active lines) (scan_lines lines active empty_scan)

-- What the program reports, by the file that it writes and its exit code.
pub data Verdict : Type 0 where
  too_large not_found uncaught_error errors no_finish pass : Verdict

abbrev pub is_empty : List String → Bool
is_empty [] = true
is_empty (_ ∷ _) = false

abbrev pub judge : Scan → Verdict
judge s =
    if not (is_empty s.error_lines) then errors else if not s.found_finish then no_finish else pass

-- `main`, under `--file-size-limit`, in bytes, where 0 is no limit. The log is its size and its lines,
-- if the file is there. With a limit, a missing file raises outside the handler.
unfoldable pub main :
    Patterns
    → Options
    → (active : List String) → (size_limit : ℕ) → Option (ℕ × List String)
    → Verdict
unfolding scan
main p o active size_limit none = if ltb 0 size_limit then uncaught_error else not_found
main p o active size_limit (some (size, lines)) =
    if ltb 0 size_limit && ltb size_limit size then too_large else judge (scan p o active lines)
