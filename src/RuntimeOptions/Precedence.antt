-- ===== src/RuntimeOptions/Precedence.antt =====
-- The command line wins over the runtime options of a test.
use rules_verilog.Base.{
  ◌≡◌, refl, ap, true, String, Option, none, some, List, [], ◌∷◌, if◌then◌else◌, arith, ◌∙◌, sym,
}
use rules_verilog.Results.Text.{str_eq, str_eq_iff}
use rules_verilog.RuntimeOptions.{
  Dict, RuntimeOptions, add_sim_opts, key_value, normalize_test_runtime_options, set_key, update,
  cli_sim_opts_to_dict, merge_test_runtime_sim_opts, get_or,
}

-- The value of a key in a dictionary.
abbrev pub lookup : String → Dict → Option String
lookup key [] = none
lookup key ((k, v) ∷ d) = if str_eq k key then some v else lookup key d

abbrev pub or_default : Option String → Option String → Option String
or_default none b = b
or_default (some a) b = some a

-- No key stands twice.
abbrev pub IsDict : Dict → Type 0
IsDict [] = Unit
IsDict ((k, v) ∷ d) = (lookup k d ≡ none) × IsDict d

module _ (upper : String → String) where
  str_eq-common : (a b c : String) → str_eq a c ≡ true → str_eq b c ≡ true → str_eq a b ≡ true
  str_eq-common a b c h k = (str_eq_iff a b).1 ((str_eq_iff a c).0 h ∙ sym ((str_eq_iff b c).0 k))

  str_eq-same : (a b c : String) → str_eq a b ≡ true → str_eq a c ≡ str_eq b c
  str_eq-same a b c h = ap (λ x. str_eq x c) ((str_eq_iff a b).0 h)

  lookup-set_key :
      (key k v : String) (d : Dict)
      → lookup key (set_key upper k v d) ≡ (if str_eq k key then some v else lookup key d)
  lookup-set_key key k v [] = refl
  lookup-set_key key k v ((k', v') ∷ d) =
      ground (arith, lookup-set_key key k v d, str_eq-same k' k key, str_eq-common k' k key)

  lookup-same : (k key : String) (d : Dict) → str_eq k key ≡ true → lookup key d ≡ lookup k d
  lookup-same k key d h = ap (λ x. lookup x d) (sym ((str_eq_iff k key).0 h))

  lookup-update :
      (key : String) (d e : Dict)
      → IsDict e
      → lookup key (update upper d e) ≡ or_default (lookup key e) (lookup key d)
  lookup-update key d [] h = refl
  lookup-update key d ((k, v) ∷ e) h = ground (
    arith,
    lookup-update key (set_key upper k v d) e h.1,
    lookup-set_key key k v d,
    h.0,
    lookup-same k key e,
  )

  set_key-IsDict : (k v : String) (d : Dict) → IsDict d → IsDict (set_key upper k v d)
  set_key-IsDict k v [] h = (refl, tt)
  set_key-IsDict k v ((k', v') ∷ d) h = ground (
    arith,
    h.0,
    h.1,
    set_key-IsDict k v d h.1,
    lookup-set_key k' k v d,
    str_eq-common k' k k,
    (str_eq_iff k' k).1,
    (str_eq_iff k k').0,
  )

  module _ (split : String → String × Option String) (append_equals : String → String) where
    add_sim_opts-IsDict :
        (d : Dict) (os : List String)
        → IsDict d
        → IsDict (add_sim_opts upper split append_equals d os)
    add_sim_opts-IsDict d [] h = h
    add_sim_opts-IsDict d (o ∷ os) h =
        let kv = key_value upper split append_equals (split o) in
        add_sim_opts-IsDict (set_key upper kv.0 kv.1 d) os (set_key-IsDict kv.0 kv.1 d h)

    -- The value of the last of the options that sets the key.
    abbrev pub last_value : String → List String → Option String
    last_value key [] = none
    last_value key (o ∷ os) =
        let kv = key_value upper split append_equals (split o) in
        or_default (last_value key os) (if str_eq kv.0 key then some kv.1 else none)

    lookup-add_sim_opts :
        (key : String) (d : Dict) (os : List String)
        → lookup key (add_sim_opts upper split append_equals d os)
          ≡ or_default (last_value key os) (lookup key d)
    lookup-add_sim_opts key d [] = refl
    lookup-add_sim_opts key d (o ∷ os) =
        let kv = key_value upper split append_equals (split o) in
        ground (
          arith,
          lookup-add_sim_opts key (set_key upper kv.0 kv.1 d) os,
          lookup-set_key key kv.0 kv.1 d,
        )

    -- In the merged options every key has the value of the last option of the command line that sets
    -- it, else that of the configuration of the test.
    pub lookup-merge_test_runtime_sim_opts :
        (r : RuntimeOptions) (os : List String) (key : String)
        → lookup key (merge_test_runtime_sim_opts upper split append_equals r os)
          ≡ or_default (last_value key os) (lookup key (get_or r.sim_opts []))
    unfolding merge_test_runtime_sim_opts normalize_test_runtime_options cli_sim_opts_to_dict
    lookup-merge_test_runtime_sim_opts r os key =
        let cli = add_sim_opts upper split append_equals [] os in
        ground (
          arith,
          lookup-update key (get_or r.sim_opts []) cli (add_sim_opts-IsDict [] os tt),
          lookup-add_sim_opts key [] os,
        )
