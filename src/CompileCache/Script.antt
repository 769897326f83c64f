-- ===== src/CompileCache/Script.antt =====
-- lib/compile_cache.py: normalize_compile_script_paths.
use rules_verilog.Base.{ℕ, ltb, String, List, [], ◌∷◌, if◌then◌else◌}
use Prim.Native.String.{◌++◌ as ◌^◌}
use rules_verilog.Results.Text.{str_eq}

-- `len`, os.path.abspath and `text.replace(old, new)` of Python.
pub record Paths : Type 0 where
  pub len : String → ℕ
  pub absolute : String → String
  pub replace : String → String → String → String

module _ (os : Paths) where
  -- The paths that are given, each with its token.
  abbrev pub replacements : List (String × String) → List (String × String)
  replacements [] = []
  replacements ((name, path) ∷ rest) =
      if str_eq path ""
      then replacements rest
      else (os.absolute path, "<" ^ (name ^ ">")) ∷ replacements rest

  -- The longest path first; paths of one length keep their order.
  abbrev pub put_by_length : String × String → List (String × String) → List (String × String)
  put_by_length r [] = r ∷ []
  put_by_length r (s ∷ ss) =
      if ltb (os.len r.0) (os.len s.0) then s ∷ put_by_length r ss else r ∷ (s ∷ ss)

  abbrev pub longest_first : List (String × String) → List (String × String)
  longest_first [] = []
  longest_first (r ∷ rs) = put_by_length r (longest_first rs)

  abbrev pub replace_all : List (String × String) → String → String
  replace_all [] script = script
  replace_all ((path, token) ∷ rest) script = replace_all rest (os.replace script path token)

  unfoldable pub normalize_compile_script_paths : String → List (String × String) → String
  normalize_compile_script_paths script path_replacements =
      replace_all (longest_first (replacements path_replacements)) script
