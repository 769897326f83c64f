-- ===== src/CompileCache/Fingerprint/Equal.antt =====
-- lib/compile_cache.py, compile_fingerprint: when two fingerprints are equal.
use rules_verilog.Base.{
  ◌≡◌, refl, sym, ◌∙◌, ap, true, String, Option, none, some, [], ◌∷◌, if◌then◌else◌, ◌↔◌, arith,
}
use rules_verilog.Results.Text.{str_eq, str_eq_iff}
use rules_verilog.CompileCache.Json.{atom, object, Fields, end, field, same}
use rules_verilog.CompileCache.Fingerprint.{
  Result, ok, raised, then_do, Host, Build, file_bytes, digest_of_inputs,
  compile_inputs_manifest_digest, extra_input_digests, compile_fingerprint,
}

-- Two digests or none, as fields in front of others.
abbrev pair_fields : String → String → Option (String × String) → Fields → Fields
pair_fields j k none rest = rest
pair_fields j k (some (a, b)) rest = field j (atom a) (field k (atom b) rest)

abbrev layout :
    String → String → Fields → Option (String × String) → Option (String × String) → Fields
layout script args env inputs extra = field "schema_version" (atom "7") (
    field "compile_script_sha256" (atom script) (
      field "compile_args_sha256" (atom args) (
        field "environment" (object env) (
          pair_fields "compile_inputs_sha256" "compile_inputs_manifest_sha256" inputs
            (pair_fields "extra_inputs_sha256" "extra_inputs_content_sha256" extra end)))))

layout_same :
    (s t a b : String) (e g : Fields) (i j x y : Option (String × String))
    → (same (object (layout s a e i x)) (object (layout t b g j y)) ≡ true)
      ↔ (s ≡ t) × (a ≡ b) × (same (object e) (object g) ≡ true) × (i ≡ j) × (x ≡ y)
unfolding same
layout_same s t a b e g none none none none = (
  λ h. ground (arith, str_eq_iff s t, str_eq_iff a b),
  λ h. ground (arith, str_eq_iff s t, str_eq_iff a b),
)
layout_same s t a b e g none none none (some (y, w)) = (λ h. ground arith, λ h. ground arith)
layout_same s t a b e g none none (some (x, z)) none = (λ h. ground arith, λ h. ground arith)
layout_same s t a b e g none none (some (x, z)) (some (y, w)) = (
  λ h. ground (arith, str_eq_iff s t, str_eq_iff a b, str_eq_iff x y, str_eq_iff z w),
  λ h. ground (arith, str_eq_iff s t, str_eq_iff a b, str_eq_iff x y, str_eq_iff z w),
)
layout_same s t a b e g none (some (j, l)) none none = (λ h. ground arith, λ h. ground arith)
layout_same s t a b e g none (some (j, l)) none (some (y, w)) =
    (λ h. ground arith, λ h. ground arith)
layout_same s t a b e g none (some (j, l)) (some (x, z)) none =
    (λ h. ground arith, λ h. ground arith)
layout_same s t a b e g none (some (j, l)) (some (x, z)) (some (y, w)) =
    (λ h. ground arith, λ h. ground arith)
layout_same s t a b e g (some (i, k)) none none none = (λ h. ground arith, λ h. ground arith)
layout_same s t a b e g (some (i, k)) none none (some (y, w)) =
    (λ h. ground arith, λ h. ground arith)
layout_same s t a b e g (some (i, k)) none (some (x, z)) none =
    (λ h. ground arith, λ h. ground arith)
layout_same s t a b e g (some (i, k)) none (some (x, z)) (some (y, w)) =
    (λ h. ground arith, λ h. ground arith)
layout_same s t a b e g (some (i, k)) (some (j, l)) none none = (
  λ h. ground (arith, str_eq_iff s t, str_eq_iff a b, str_eq_iff i j, str_eq_iff k l),
  λ h. ground (arith, str_eq_iff s t, str_eq_iff a b, str_eq_iff i j, str_eq_iff k l),
)
layout_same s t a b e g (some (i, k)) (some (j, l)) none (some (y, w)) =
    (λ h. ground arith, λ h. ground arith)
layout_same s t a b e g (some (i, k)) (some (j, l)) (some (x, z)) none =
    (λ h. ground arith, λ h. ground arith)
layout_same s t a b e g (some (i, k)) (some (j, l)) (some (x, z)) (some (y, w)) = (
  λ h. ground (
    arith,
    str_eq_iff s t,
    str_eq_iff a b,
    str_eq_iff i j,
    str_eq_iff k l,
    str_eq_iff x y,
    str_eq_iff z w,
  ),
  λ h. ground (
    arith,
    str_eq_iff s t,
    str_eq_iff a b,
    str_eq_iff i j,
    str_eq_iff k l,
    str_eq_iff x y,
    str_eq_iff z w,
  ),
)

module _ (h : Host) (b : Build) where
  -- The two digests of the compile inputs, if the inputs are given.
  abbrev pub seen_inputs : Result (Option (String × String))
  seen_inputs = elim b.compile_inputs_path [
    | none ↦ ok none
    | some inputs ↦
        if str_eq inputs ""
        then ok none
        else then_do (digest_of_inputs h inputs b.runfiles_root b.compile_inputs_digest_path)
            (λ digest.
              then_do (compile_inputs_manifest_digest h inputs)
                (λ manifest. ok (some (digest, manifest))))
  ]

  -- The two digests of the extra inputs, if there are any.
  abbrev pub seen_extra : Option (String × String)
  seen_extra = elim b.extra_input_paths [
    | [] ↦ none
    | p ∷ ps ↦ some (extra_input_digests h (p ∷ ps))
  ]

  fingerprint_layout :
      compile_fingerprint h b
      ≡ then_do seen_inputs (λ inputs. ok (
          layout
            (h.sha256 (b.compile_script ∷ []))
            (h.sha256 (file_bytes h b.compile_args_path ∷ []))
            b.environment
            inputs
            seen_extra))
  unfolding compile_fingerprint
  fingerprint_layout = ground arith

-- What a successful chain has come through.
then_ok {ℓ κ} :
    {A : Type ℓ} {B : Type κ} (r : Result A) (f : A → B) {y : B}
    → then_do r (λ x. ok (f x)) ≡ ok y
    → (x : A) × (r ≡ ok x) × (f x ≡ y)
then_ok (ok x) f h = (x, refl, ground arith)
then_ok (raised e) f h = ground arith

ok_injective {ℓ} : {A : Type ℓ} {x y : A} → ok x ≡ ok y → x ≡ y
ok_injective h = ground arith

-- Two fingerprints, of two states of the files, are equal exactly when the scripts, the argument files and
-- the inputs have equal digests and the environments are equal.
pub compile_fingerprint-same :
    (h g : Host) (b c : Build) {e f : Fields}
    → compile_fingerprint h b ≡ ok e
    → compile_fingerprint g c ≡ ok f
    → (same (object e) (object f) ≡ true)
      ↔ (h.sha256 (b.compile_script ∷ []) ≡ g.sha256 (c.compile_script ∷ []))
        × (h.sha256 (file_bytes h b.compile_args_path ∷ [])
            ≡ g.sha256 (file_bytes g c.compile_args_path ∷ []))
        × (same (object b.environment) (object c.environment) ≡ true)
        × (seen_inputs h b ≡ seen_inputs g c)
        × (seen_extra h b ≡ seen_extra g c)
compile_fingerprint-same h g b c p q =
    let (i, i_seen, e_laid) = then_ok (seen_inputs h b) _ (sym (fingerprint_layout h b) ∙ p) in
    let (j, j_seen, f_laid) = then_ok (seen_inputs g c) _ (sym (fingerprint_layout g c) ∙ q) in
    let s = layout_same _ _ _ _ b.environment c.environment i j (seen_extra h b) (seen_extra g c) in
    rw (sym e_laid, sym f_laid, i_seen, j_seen)
      (
        λ r. let d = s.0 r in (d.0, d.1, d.2, ap ok d.3, d.4),
        λ r. s.1 (r.0, r.1, r.2, ok_injective r.3, r.4),
      )
