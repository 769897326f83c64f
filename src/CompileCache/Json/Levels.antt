-- ===== src/CompileCache/Json/Levels.antt =====
-- lib/compile_cache.py: how deep _changed_fingerprint_fields goes.
use rules_verilog.Base.{
  ℕ, zero, suc, ◌+◌, ◌<◌, ◌≤◌, max, ◌≡◌, refl, ap, ◌∙◌, String, List, [], ◌∷◌, arith, Bool-cases,
  inl, inr,
}
use rules_verilog.Results.Text.{str_eq}
use rules_verilog.CompileCache.Json.{
  Value, null, atom, object, Fields, end, field, get, union_keys, field_name, changed_one,
  changed_keys, changed_fields,
}

-- How many dictionaries stand inside one another below a value or a field.
unfoldable mutual
  pub level : Value → ℕ
  level null = 0
  level (atom a) = 0
  level (object fs) = suc (levels fs)

  pub levels : Fields → ℕ
  levels end = 0
  levels (field k v fs) = max (level v) (levels fs)

level-get : (k : String) (fs : Fields) → level (get k fs) ≤ levels fs
unfolding levels
level-get k end = omega arith
level-get k (field j v fs) = elim (Bool-cases (str_eq k j)) [
  | inl e ↦ rw e (omega arith)
  | inr e ↦ rw e (omega (arith, level-get k fs))
]

module _ (n : ℕ)
    (ih : (p : String) (fs gs : Fields)
      → levels fs < n
      → changed_fields n p fs gs ≡ changed_fields (suc n) p fs gs) where
  one_stable :
      (name : String) (v w : Value)
      → level v ≤ n
      → changed_one (λ p a e. changed_fields n p a e) name v w
        ≡ changed_one (λ p a e. changed_fields (suc n) p a e) name v w
  unfolding levels
  one_stable name (object fs) (object gs) h = ih name fs gs (omega arith)
  one_stable name (object fs) null h = refl
  one_stable name (object fs) (atom b) h = refl
  one_stable name null w h = refl
  one_stable name (atom a) w h = refl

  keys_stable :
      (p : String) (fs gs : Fields) (ks : List String)
      → levels fs ≤ n
      → changed_keys (λ q a e. changed_fields n q a e) p fs gs ks
        ≡ changed_keys (λ q a e. changed_fields (suc n) q a e) p fs gs ks
  keys_stable p fs gs [] h = refl
  keys_stable p fs gs (k ∷ ks) h =
      rw
        (
          one_stable (field_name p k) (get k fs) (get k gs) (omega (arith, level-get k fs)),
          keys_stable p fs gs ks h,
        )
        refl

once :
    (n : ℕ) (p : String) (fs gs : Fields)
    → levels fs < n
    → changed_fields n p fs gs ≡ changed_fields (suc n) p fs gs
unfolding changed_fields
once zero p fs gs h = ground arith
once (suc n) p fs gs h =
    keys_stable n (λ q a e. once n q a e) p fs gs (union_keys fs gs) (omega arith)

-- A bound above the levels of a fingerprint is enough: a larger one reports the same fields.
pub changed_fields_stable :
    (n k : ℕ) (p : String) (fs gs : Fields)
    → levels fs < n
    → changed_fields n p fs gs ≡ changed_fields (k + n) p fs gs
changed_fields_stable n zero p fs gs h =
    let e : n ≡ 0 + n = omega arith in ap (λ i. changed_fields i p fs gs) e
changed_fields_stable n (suc k) p fs gs h =
    let e : suc (k + n) ≡ suc k + n = omega arith in
    changed_fields_stable n k p fs gs h
    ∙ once (k + n) p fs gs (omega arith)
    ∙ ap (λ i. changed_fields i p fs gs) e
