-- ===== src/CompileCache/Json.antt =====
-- lib/compile_cache.py: the fingerprint of a compile as JSON, equality of dictionaries, and
-- _changed_fingerprint_fields.
pub mod Changed
pub mod Levels
use rules_verilog.Base.{
  ℕ, zero, suc, Bool, true, false, not, ◌&&◌, ◌||◌, String, List, [], ◌∷◌, ◌++◌, if◌then◌else◌,
}
use Prim.Native.String.{◌++◌ as ◌^◌}
use rules_verilog.Results.Text.{str_eq, str_lt}

-- A text, a number or a list is an atom, by its JSON text. The keys of a dictionary are different.
mutual
  pub data Value : Type 0 where
    null : Value
    atom : String → Value
    object : Fields → Value

  pub data Fields : Type 0 where
    end : Fields
    field : String → Value → Fields → Fields

abbrev pub has_key : String → Fields → Bool
has_key k end = false
has_key k (field j v fs) = str_eq k j || has_key k fs

-- `fields.get(key)`, where a missing key is None.
abbrev pub get : String → Fields → Value
get k end = null
get k (field j v fs) = if str_eq k j then v else get k fs

abbrev pub keys_within : Fields → Fields → Bool
keys_within end gs = true
keys_within (field k v fs) gs = has_key k gs && keys_within fs gs

-- `==`, which does not look at the order of a dictionary.
unfoldable mutual
  pub same : Value → Value → Bool
  same null null = true
  same (atom a) (atom b) = str_eq a b
  same (object fs) (object gs) = covers fs gs && keys_within gs fs
  same _ _ = false

  pub covers : Fields → Fields → Bool
  covers end gs = true
  covers (field k v fs) gs = has_key k gs && same v (get k gs) && covers fs gs

-- `sorted(set(actual) | set(expected))`.
abbrev pub insert_key : String → List String → List String
insert_key k [] = k ∷ []
insert_key k (j ∷ js) =
    if str_eq k j then j ∷ js else if str_lt k j then k ∷ (j ∷ js) else j ∷ insert_key k js

abbrev pub insert_keys : Fields → List String → List String
insert_keys end ks = ks
insert_keys (field k v fs) ks = insert_key k (insert_keys fs ks)

abbrev pub union_keys : Fields → Fields → List String
union_keys actual expected = insert_keys actual (insert_keys expected [])

abbrev pub field_name : String → String → String
field_name prefix key = if str_eq prefix "" then key else prefix ^ ("." ^ key)

-- One key; `inner` is the call for two dictionaries.
abbrev pub changed_one :
    (String → Fields → Fields → List String) → String → Value → Value → List String
changed_one inner name (object fs) (object gs) = inner name fs gs
changed_one inner name v w = if same v w then [] else name ∷ []

abbrev pub changed_keys :
    (String → Fields → Fields → List String) → String → Fields → Fields → List String → List String
changed_keys inner prefix actual expected [] = []
changed_keys inner prefix actual expected (k ∷ ks) =
    changed_one inner (field_name prefix k) (get k actual) (get k expected)
    ++ changed_keys inner prefix actual expected ks

-- By recursion on a bound for the depth of the dictionaries.
unfoldable pub changed_fields : (bound : ℕ) → String → Fields → Fields → List String
unfolding same
changed_fields zero prefix actual expected = []
changed_fields (suc bound) prefix actual expected =
    changed_keys (λ p a e. changed_fields bound p a e) prefix actual expected
      (union_keys actual expected)
