-- ===== src/CompileCache/Examples.antt =====
-- Runs of the search through filelists and of the fingerprint, on small file systems.
use rules_verilog.Base.{
  suc, ◌≡◌, ◌+◌, ◌↔◌, refl, true, false, String, Option, none, some, List, [], ◌∷◌, if◌then◌else◌,
}
use Prim.Native.String.{◌++◌ as ◌^◌}
use rules_verilog.Results.Text.{has, str_eq}
use rules_verilog.CompileCache.FileLists.{System, kind, start, walk, discover_filelist_inputs}
use rules_verilog.CompileCache.FileLists.Ends.{todo, discover_filelist_inputs_ends}
use rules_verilog.CompileCache.Json.{Fields, atom, object, end, field, same}
use rules_verilog.CompileCache.Fingerprint.{ok, Host, Build, file_bytes, compile_fingerprint}
use rules_verilog.CompileCache.Fingerprint.Equal.{seen_inputs, seen_extra, compile_fingerprint-same}

-- "a.f" and "b.f" name each other, and "b.f" two source files, of which one exists.
abbrev existing : List String
existing = "/w/a.f" ∷ "/w/b.f" ∷ "/w/x.sv" ∷ []

abbrev words : String → Option (List String)
words p =
    if str_eq p "/w/a.f"
    then some ("-f" ∷ "b.f" ∷ [])
    else if str_eq p "/w/b.f"
    then some ("x.sv" ∷ "y.sv" ∷ "-f" ∷ "a.f" ∷ [])
    else some []

abbrev system : System
system = record {
  strip = λ s. s;
  len = λ s. 1;
  char = λ s i. "";
  slice = λ s i j. s;
  starts_with = λ s p. false;
  after = λ s p. s;
  split = λ s t. [];
  expand = λ s. s;
  is_absolute = λ s. false;
  join = λ b p. b ^ ("/" ^ p);
  absolute = λ s. s;
  directory = λ s. "/w";
  is_file = λ p. has p existing;
  is_directory = λ p. false;
  files_below = λ p. [];
  tokens = words;
}

found_all : discover_filelist_inputs system 9 "/w/a.f" "/w" ≡ "/w/x.sv" ∷ "/w/b.f" ∷ "/w/a.f" ∷ []
unfolding discover_filelist_inputs kind
found_all = refl

discover_filelist_inputs_ends_example :
    let enough = suc (todo system existing []) in
    ((walk system enough (start system "/w/a.f" "/w")).pending ≡ [])
    × (discover_filelist_inputs system (enough + 4) "/w/a.f" "/w"
        ≡ discover_filelist_inputs system enough "/w/a.f" "/w")
discover_filelist_inputs_ends_example =
    discover_filelist_inputs_ends system existing (λ p h. h) "/w/a.f" "/w" 4

-- A digest that is the texts themselves, and an inventory of one file with a content that varies.
abbrev all_texts : List String → String
all_texts [] = ""
all_texts (t ∷ ts) = t ^ ("/" ^ all_texts ts)

abbrev host : String → Host
host content = record {
  sha256 = all_texts;
  lines = λ p. some ("id" ∷ []);
  bytes = λ p. if str_eq p "/r/x.sv" then some content else none;
  is_file = λ p. str_eq p "/r/x.sv";
  after_tab = λ entry. some "x.sv";
  join = λ root p. root ^ ("/" ^ p);
  absolute = λ p. p;
  strip = λ text. text;
  is_digest = λ text. true;
}

abbrev build : Build
build = record {
  compile_script = "vcs";
  compile_args_path = "/r/args";
  compile_inputs_path = some "/r/inputs";
  runfiles_root = "/r";
  compile_inputs_digest_path = none;
  extra_input_paths = [];
  environment = field "VCS_HOME" (atom "/vcs") end;
}

abbrev printed : String → Fields
printed content = field "schema_version" (atom "7") (
    field "compile_script_sha256" (atom "vcs/") (
      field "compile_args_sha256" (atom "<missing>/") (
        field "environment" (object (field "VCS_HOME" (atom "/vcs") end)) (
          field "compile_inputs_sha256" (atom ("id/" ^ (content ^ "/")))
            (field "compile_inputs_manifest_sha256" (atom "id/") end)))))

first_fingerprint : compile_fingerprint (host "a") build ≡ ok (printed "a")
unfolding compile_fingerprint
first_fingerprint = refl

second_fingerprint : compile_fingerprint (host "b") build ≡ ok (printed "b")
unfolding compile_fingerprint
second_fingerprint = refl

-- The content of the input file makes the difference.
different : same (object (printed "a")) (object (printed "b")) ≡ false
unfolding same
different = refl

compile_fingerprint-same_example :
    (same (object (printed "a")) (object (printed "b")) ≡ true)
    ↔ (all_texts ("vcs" ∷ []) ≡ all_texts ("vcs" ∷ []))
      × (all_texts (file_bytes (host "a") "/r/args" ∷ [])
          ≡ all_texts (file_bytes (host "b") "/r/args" ∷ []))
      × (same (object build.environment) (object build.environment) ≡ true)
      × (seen_inputs (host "a") build ≡ seen_inputs (host "b") build)
      × (seen_extra (host "a") build ≡ seen_extra (host "b") build)
compile_fingerprint-same_example =
    compile_fingerprint-same (host "a") (host "b") build build first_fingerprint second_fingerprint
