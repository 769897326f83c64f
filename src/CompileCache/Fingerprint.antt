-- ===== src/CompileCache/Fingerprint.antt =====
-- lib/compile_cache.py: the fingerprint of a compile, its file in the directory of the compile, and
-- the decision to use a compile again.
pub mod Equal
use rules_verilog.Base.{
  ℕ, Bool, true, false, not, String, Option, none, some, List, [], ◌∷◌, ◌++◌, if◌then◌else◌,
}
use rules_verilog.Results.Text.{str_eq, str_lt}
use rules_verilog.CompileCache.Json.{Value, atom, object, Fields, end, field, same, changed_fields}

-- The errors; an OSError or a ValueError of a library is told by its class only.
pub data Failure : Type 0 where
  os_error value_error : Failure
  malformed_entry : (entry : String) → Failure
  missing_input : (path : String) → Failure
  unreadable_digest malformed_digest : (path : String) → Failure
  no_fingerprint : Failure
  mismatch : (changed : List String) → Failure

pub data Result {ℓ} (A : Type ℓ) : Type ℓ where
  ok : A → Result A
  raised : Failure → Result A

abbrev pub then_do {ℓ κ} : {A : Type ℓ} {B : Type κ} → Result A → (A → Result B) → Result B
then_do (ok a) f = f a
then_do (raised e) f = raised e

-- What the functions take from Python's library and from the file system.
pub record Host : Type 0 where
  pub sha256 : List String → String  -- of the texts, each with a zero byte behind it
  pub lines : String → Option (List String)  -- `none` is an OSError
  pub bytes : String → Option String
  pub is_file : String → Bool
  pub after_tab : String → Option String  -- `entry.partition("\t")`; `none` has no tab
  pub join : String → String → String
  pub absolute : String → String
  pub strip : String → String
  pub is_digest : String → Bool  -- `re.fullmatch(r"[0-9a-f]{64}", text)`

-- The arguments of `compile_fingerprint`. None and the empty text are not given.
pub record Build : Type 0 where
  pub compile_script : String
  pub compile_args_path : String
  pub compile_inputs_path : Option String
  pub runfiles_root : String
  pub compile_inputs_digest_path : Option String
  pub extra_input_paths : List String
  pub environment : Fields

-- `sorted` on texts.
abbrev pub insert : String → List String → List String
insert t [] = t ∷ []
insert t (u ∷ us) = if str_lt u t then u ∷ insert t us else t ∷ (u ∷ us)

abbrev pub sorted : List String → List String
sorted [] = []
sorted (t ∷ ts) = insert t (sorted ts)

module _ (h : Host) where
  abbrev pub file_bytes : String → String
  file_bytes path = elim (h.bytes path) [ none ↦ "<missing>" | some b ↦ b ]

  abbrev pub input_path : String → String → Result String
  input_path root entry = elim (h.after_tab entry) [
    | none ↦ raised (malformed_entry entry)
    | some relative ↦
        if h.is_file (h.join root relative)
        then ok (h.join root relative)
        else raised (missing_input (h.join root relative))
  ]

  abbrev pub inputs_texts : String → List String → Result (List String)
  inputs_texts root [] = ok []
  inputs_texts root (entry ∷ entries) =
      let rest = inputs_texts root entries in
      then_do (input_path root entry)
        (λ path. then_do rest (λ texts. ok (entry ∷ (file_bytes path ∷ texts))))

  -- `_compile_inputs_digest` for a path that is given.
  unfoldable pub compile_inputs_digest : String → String → Result String
  compile_inputs_digest path root = elim (h.lines path) [
    | none ↦ raised os_error
    | some entries ↦ then_do (inputs_texts root entries) (λ texts. ok (h.sha256 texts))
  ]

  abbrev pub manifest_texts : List String → Result (List String)
  manifest_texts [] = ok []
  manifest_texts (entry ∷ entries) =
      let rest = manifest_texts entries in
      elim (h.after_tab entry) [
        | none ↦ raised (malformed_entry entry)
        | some _ ↦ then_do rest (λ texts. ok (entry ∷ texts))
      ]

  unfoldable pub compile_inputs_manifest_digest : String → Result String
  compile_inputs_manifest_digest path = elim (h.lines path) [
    | none ↦ raised os_error
    | some entries ↦ then_do (manifest_texts entries) (λ texts. ok (h.sha256 texts))
  ]

  unfoldable pub read_compile_inputs_digest : String → Result String
  read_compile_inputs_digest path = elim (h.bytes path) [
    | none ↦ raised (unreadable_digest path)
    | some text ↦
        if h.is_digest (h.strip text) then ok (h.strip text) else raised (malformed_digest path)
  ]

  abbrev pub given_paths : List String → List String
  given_paths [] = []
  given_paths (p ∷ ps) = if str_eq p "" then given_paths ps else h.absolute p ∷ given_paths ps

  abbrev pub path_texts : List String → List String
  path_texts [] = []
  path_texts (p ∷ ps) = p ∷ (file_bytes p ∷ path_texts ps)

  abbrev pub content_digests : List String → List String
  content_digests [] = []
  content_digests (p ∷ ps) = h.sha256 (file_bytes p ∷ []) ∷ content_digests ps

  unfoldable pub extra_input_digests : List String → String × String
  extra_input_digests paths =
      let given = sorted (given_paths paths) in
      (h.sha256 (path_texts given), h.sha256 (sorted (content_digests given)))

  abbrev pub digest_of_inputs : String → String → Option String → Result String
  digest_of_inputs inputs root none = compile_inputs_digest inputs root
  digest_of_inputs inputs root (some path) =
      if str_eq path "" then compile_inputs_digest inputs root else read_compile_inputs_digest path

  abbrev pub input_fields : Option String → String → Option String → Fields → Result Fields
  input_fields none root digest_path rest = ok rest
  input_fields (some inputs) root digest_path rest =
      if str_eq inputs ""
      then ok rest
      else then_do (digest_of_inputs inputs root digest_path) (λ digest.
        then_do (compile_inputs_manifest_digest inputs) (λ manifest. ok (
          field "compile_inputs_sha256" (atom digest)
            (field "compile_inputs_manifest_sha256" (atom manifest) rest))))

  abbrev pub extra_fields : List String → Fields
  extra_fields [] = end
  extra_fields (p ∷ ps) =
      let digests = extra_input_digests (p ∷ ps) in
      field "extra_inputs_sha256" (atom digests.0)
        (field "extra_inputs_content_sha256" (atom digests.1) end)

  unfoldable pub compile_fingerprint : Build → Result Fields
  unfolding compile_inputs_digest compile_inputs_manifest_digest read_compile_inputs_digest
      extra_input_digests
  compile_fingerprint b =
      let given =
        input_fields b.compile_inputs_path b.runfiles_root b.compile_inputs_digest_path
          (extra_fields b.extra_input_paths) in
      then_do given (λ rest. ok (
        field "schema_version" (atom "7") (
          field "compile_script_sha256" (atom (h.sha256 (b.compile_script ∷ []))) (
            field "compile_args_sha256" (atom (h.sha256 (file_bytes b.compile_args_path ∷ [])))
              (field "environment" (object b.environment) rest)))))

-- The file of the fingerprint.
pub data Stored : Type 0 where
  missing unreadable malformed : Stored
  holds : Fields → Stored

abbrev pub write_compile_fingerprint : Fields → Stored
write_compile_fingerprint fingerprint = holds fingerprint

abbrev pub invalidate_compile_fingerprint : Stored → Stored
invalidate_compile_fingerprint stored = missing

-- `none` when the fingerprint is the expected one. The bound is for the depth of the dictionaries.
unfoldable pub validate_compile_fingerprint : (bound : ℕ) → Stored → Fields → Option Failure
unfolding changed_fields same
validate_compile_fingerprint bound missing expected = some no_fingerprint
validate_compile_fingerprint bound unreadable expected = some os_error
validate_compile_fingerprint bound malformed expected = some value_error
validate_compile_fingerprint bound (holds actual) expected =
    if same (object actual) (object expected)
    then none
    else some (mismatch (changed_fields bound "" actual expected))

-- The result of `validate_artifacts`, a hook, comes first.
unfoldable pub can_reuse_compile :
    (bound : ℕ) → Stored → Fields → Option Failure → Bool × Option Failure
unfolding validate_compile_fingerprint
can_reuse_compile bound stored expected (some e) = (false, some e)
can_reuse_compile bound stored expected none =
    elim (validate_compile_fingerprint bound stored expected) [
      | none ↦ (true, none)
      | some e ↦ (false, some e)
    ]
