-- ===== src/CompileCache/FileLists.antt =====
-- lib/compile_cache.py, discover_filelist_inputs: the files that a simulator filelist refers to,
-- through nested filelists. The file system and the functions of Python's library on texts and paths
-- are parameters.
pub mod Ends
pub mod Existing
use rules_verilog.Base.{
  ℕ, zero, suc, ◌+◌, ◌-◌, Bool, true, false, not, ◌&&◌, ◌||◌, String, Option, none, some, List, [],
  ◌∷◌, ◌++◌, leb, ◌==◌, if◌then◌else◌,
}
use rules_verilog.Results.Text.{has, str_eq}

pub record System : Type 0 where
  -- Texts and paths.
  pub strip : String → String
  pub len : String → ℕ
  pub char : String → ℕ → String  -- `value[i]`
  pub slice : String → ℕ → ℕ → String  -- `value[i:j]`
  pub starts_with : String → String → Bool  -- the text first
  pub after : String → String → String  -- `token[len(prefix):]`, the token first
  pub split : String → String → List String  -- `text.split(separator)`, the separator first
  pub expand : String → String  -- `os.path.expanduser(os.path.expandvars(path))`
  pub is_absolute : String → Bool
  pub join : String → String → String
  pub absolute : String → String
  pub directory : String → String
  -- The file system.
  pub is_file : String → Bool
  pub is_directory : String → Bool
  pub files_below : String → List String  -- `_directory_inputs`, by `os.walk`
  pub tokens : String → Option (List String)  -- `shlex.split` of a file; `none` is its ValueError

-- `set.add` and `set.update`.
abbrev pub add : String → List String → List String
add p ps = if has p ps then ps else p ∷ ps

abbrev pub add_all : List String → List String → List String
add_all [] ps = ps
add_all (q ∷ qs) ps = add_all qs (add q ps)

-- What a token of a filelist is. The first three take the next token with them.
pub data Kind : Type 0 where
  nested nested_at_own library_file library_directory include : Kind
  nested_is : String → Kind
  includes : List String → Kind
  option source : Kind

-- What the tokens of a filelist refer to: files, and nested filelists with the directory that their
-- paths are relative to, the last one first.
pub record Found : Type 0 where
  pub files : List String
  pub lists : List (String × String)

pub record Walk : Type 0 where
  pub pending : List (String × String)  -- a stack
  pub parsed : List String
  pub files : List String

module _ (s : System) where
  abbrev pub is_quote : String → Bool
  is_quote c = str_eq c "\"" || str_eq c "'"

  abbrev pub unquote : String → String
  unquote value =
      let v = s.strip value in
      if leb 2 (s.len v) && str_eq (s.char v 0) (s.char v (s.len v - 1)) && is_quote (s.char v 0)
      then s.slice v 1 (s.len v - 1)
      else v

  abbrev pub resolve : String → String → String
  resolve path base =
      let expanded = s.expand (unquote path) in
      s.absolute (if s.is_absolute expanded then expanded else s.join base expanded)

  -- `add_path`, for the set; its result is `resolve path base`.
  abbrev pub add_path : String → String → Bool → List String → List String
  add_path path base include_directory files =
      let resolved = resolve path base in
      if s.is_file resolved
      then add resolved files
      else if include_directory && s.is_directory resolved
      then add_all (s.files_below resolved) files
      else files

  abbrev pub add_includes : List String → String → List String → List String
  add_includes [] base files = files
  add_includes (d ∷ ds) base files =
      add_includes ds base (if str_eq d "" then files else add_path d base true files)

  -- The tests of the loop over the tokens, in their order.
  unfoldable pub kind : String → Kind
  kind token =
      if str_eq token "-f" || str_eq token "-file"
      then nested
      else if str_eq token "-F"
      then nested_at_own
      else if s.starts_with token "-file="
      then nested_is (s.after token "-file=")
      else if s.starts_with token "+incdir+"
      then includes (s.split "+" (s.after token "+incdir+"))
      else if str_eq token "-incdir"
      then include
      else if str_eq token "-v"
      then library_file
      else if str_eq token "-y"
      then library_directory
      else if s.starts_with token "-" || s.starts_with token "+"
      then option
      else source

  abbrev pub add_list : String → String → String → Found → Found
  add_list path path_base list_base found = record {
    files = add_path path path_base false found.files;
    lists = (resolve path path_base, list_base) ∷ found.lists;
  }

  abbrev pub add_file : String → String → Bool → Found → Found
  add_file path base include_directory found = record found {
    files = add_path path base include_directory found.files;
  }

  -- What a token adds, with the token behind it. One that wants another behind it and has none is
  -- passed over.
  unfoldable pub handle : Kind → String → Option String → String → Found → Found
  handle nested t (some u) base found = add_list u base base found
  handle nested_at_own t (some u) base found = add_list u base (s.directory (resolve u base)) found
  handle library_file t (some u) base found = add_file u base false found
  handle library_directory t (some u) base found = add_file u base true found
  handle include t (some u) base found = add_file u base true found
  handle (nested_is path) t u base found = add_list path base base found
  handle (includes ds) t u base found = record found { files = add_includes ds base found.files }
  handle source t u base found = add_file t base false found
  handle _ t _ base found = found

  -- Whether the index moves on by two.
  abbrev pub takes_next : Kind → Bool
  takes_next nested = true
  takes_next nested_at_own = true
  takes_next library_file = true
  takes_next library_directory = true
  takes_next include = true
  takes_next _ = false

  -- The loop over the tokens.
  unfoldable pub scan_tokens : List String → String → Found → Found
  unfolding handle
  scan_tokens [] base found = found
  scan_tokens (t ∷ []) base found = handle (kind t) t none base found
  scan_tokens (t ∷ (u ∷ rest)) base found = elim (takes_next (kind t)) [
    | true ↦ scan_tokens rest base (handle (kind t) t (some u) base found)
    | false ↦ scan_tokens (u ∷ rest) base (handle (kind t) t (some u) base found)
  ]

  abbrev pub unquote_all : List String → List String
  unquote_all [] = []
  unquote_all (t ∷ ts) = unquote t ∷ unquote_all ts

  -- The tokens of a filelist that is parsed, against the files known so far.
  abbrev pub scan_file : Option (List String) → String → List String → Found
  scan_file none base files = record { files = files; lists = [] }
  scan_file (some ts) base files =
      scan_tokens (unquote_all ts) base (record { files = files; lists = [] })

  abbrev pub parse : String → String → Walk → Walk
  parse list base w =
      let found = scan_file (s.tokens list) base (add list w.files) in
      record { pending = found.lists ++ w.pending; parsed = list ∷ w.parsed; files = found.files }

  -- One round of the loop `while pending`.
  unfoldable pub step : Walk → Walk
  unfolding scan_tokens
  step w = elim w.pending [
    | [] ↦ w
    | (list, base) ∷ rest ↦
        if has list w.parsed
        then record w { pending = rest }
        else if not (s.is_file list)
        then record w { pending = rest; parsed = list ∷ w.parsed }
        else parse list base (record w { pending = rest })
  ]

  unfoldable pub walk : (rounds : ℕ) → Walk → Walk
  unfolding step
  walk zero w = w
  walk (suc n) w = walk n (step w)

  abbrev pub start : String → String → Walk
  start filelist_path working_directory = record {
    pending = (s.absolute filelist_path, s.absolute working_directory) ∷ [];
    parsed = [];
    files = [];
  }

  -- The function, for a path that is not empty, after a number of rounds. The result is sorted in the
  -- end, as a set has no order.
  unfoldable pub discover_filelist_inputs : (rounds : ℕ) → String → String → List String
  unfolding walk
  discover_filelist_inputs rounds filelist_path working_directory =
      if str_eq filelist_path ""
      then []
      else (walk rounds (start filelist_path working_directory)).files
