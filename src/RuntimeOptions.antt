-- ===== src/RuntimeOptions.antt =====
-- lib/runtime_options.py: the runtime options of a test, as its configuration gives them and as the
-- command line overrides them. A dictionary with fixed keys is a record of optional values; one with
-- free keys is the list of its entries, in the order of insertion. `upper` and the split at the
-- first `=` of Python's texts are parameters, and so is `shlex.join`.
pub mod Precedence
mod Examples
use rules_verilog.Base.{
  ℕ, zero, suc, Bool, true, false, String, Option, none, some, List, [], ◌∷◌, ◌++◌, if◌then◌else◌,
}
use rules_verilog.Base.Int.{ℤ, pos, negsuc}
use rules_verilog.Results.Text.{str_eq}

abbrev pub Dict : Type 0
Dict = List (String × String)

-- A value of the time limit: the empty text, `None` or a number of minutes.
pub data Minutes : Type 0 where
  blank null : Minutes
  minutes : ℤ → Minutes

-- `none` is a key that is missing.
pub record RuntimeOptions : Type 0 where
  pub schema_version : Option ℕ
  pub simulator : Option String
  pub uvm_testname : Option String
  pub sim_opts : Option Dict
  pub timeout_minutes : Option Minutes
  pub timeout : Option Minutes
  pub sockets : Option Dict
  pub tags : Option (List String)
  pub pre_run : Option (Option String)
  pub run_pass_patterns : Option (List String)
  pub run_fail_patterns : Option (List String)

pub record Normalized : Type 0 where
  pub schema_version : ℕ
  pub simulator : String
  pub uvm_testname : Option String
  pub sim_opts : Dict
  pub timeout_minutes : Option ℤ
  pub sockets : Dict
  pub tags : List String
  pub pre_run : String
  pub run_pass_patterns : List String
  pub run_fail_patterns : List String

-- `d.get(key, default)`.
abbrev pub get_or {ℓ} : {A : Type ℓ} → Option A → A → A
get_or none default = default
get_or (some a) default = a

-- `timeout_minutes in ("", None)` gives `None`.
abbrev pub minutes_or_none : Minutes → Option ℤ
minutes_or_none blank = none
minutes_or_none null = none
minutes_or_none (minutes n) = some n

abbrev pub text_or_empty : Option (Option String) → String
text_or_empty none = ""
text_or_empty (some none) = ""
text_or_empty (some (some s)) = s

module _ (upper : String → String) where
  unfoldable pub normalize_test_runtime_options : RuntimeOptions → Normalized
  normalize_test_runtime_options r = record {
    schema_version = get_or r.schema_version 1;
    simulator = upper (get_or r.simulator "XRUN");
    uvm_testname = r.uvm_testname;
    sim_opts = get_or r.sim_opts [];
    timeout_minutes = minutes_or_none (get_or r.timeout_minutes (get_or r.timeout null));
    sockets = get_or r.sockets [];
    tags = get_or r.tags [];
    pre_run = text_or_empty r.pre_run;
    run_pass_patterns = get_or r.run_pass_patterns [];
    run_fail_patterns = get_or r.run_fail_patterns [];
  }

  -- `d[key] = value`.
  abbrev pub set_key : String → String → Dict → Dict
  set_key key value [] = (key, value) ∷ []
  set_key key value ((k, v) ∷ d) =
      if str_eq k key then (k, value) ∷ d else (k, v) ∷ set_key key value d

  -- `d.update(e)`.
  abbrev pub update : Dict → Dict → Dict
  update d [] = d
  update d ((k, v) ∷ e) = update (set_key k v d) e

  module _ (split : String → String × Option String) (append_equals : String → String) where
    -- The key and the value of one option: `split` gives the text before the first `=` and, if there
    -- is one, the text behind it, and `append_equals` is `parts[0] + "="`.
    abbrev pub key_value : String × Option String → String × String
    key_value (part, none) = (part, "")
    key_value (part, some value) = (append_equals part, value)

    abbrev pub add_sim_opts : Dict → List String → Dict
    add_sim_opts d [] = d
    add_sim_opts d (o ∷ os) =
        add_sim_opts (set_key (key_value (split o)).0 (key_value (split o)).1 d) os

    unfoldable pub cli_sim_opts_to_dict : List String → Dict
    cli_sim_opts_to_dict os = add_sim_opts [] os

    unfoldable pub merge_test_runtime_sim_opts : RuntimeOptions → List String → Dict
    unfolding normalize_test_runtime_options cli_sim_opts_to_dict
    merge_test_runtime_sim_opts r os =
        update (normalize_test_runtime_options r).sim_opts (cli_sim_opts_to_dict os)

  -- The arguments that `format_log_check_args` joins.
  abbrev pub flag_all : String → List String → List String
  flag_all flag [] = []
  flag_all flag (p ∷ ps) = flag ∷ (p ∷ flag_all flag ps)

  unfoldable pub format_log_check_args : (join : List String → String) → RuntimeOptions → String
  unfolding normalize_test_runtime_options
  format_log_check_args join r =
      let n = normalize_test_runtime_options r in
      join (
        flag_all "--pass-pattern" n.run_pass_patterns
        ++ flag_all "--fail-pattern" n.run_fail_patterns)

  -- The time limit of a test: the default, in hours, or a number of minutes.
  pub data Limit : Type 0 where
    default_hours : Limit
    of_minutes : ℕ → Limit

  abbrev pub limit_of : Option ℤ → Limit
  limit_of none = default_hours
  limit_of (some (pos n)) = of_minutes n
  limit_of (some (negsuc n)) = default_hours

  unfoldable pub resolve_test_timeout_hours :
      RuntimeOptions → (cli_timeout_was_explicit : Bool) → Limit
  unfolding normalize_test_runtime_options
  resolve_test_timeout_hours r explicit =
      if explicit
      then default_hours
      else limit_of (normalize_test_runtime_options r).timeout_minutes
