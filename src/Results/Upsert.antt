-- ===== src/Results/Upsert.antt =====
-- One record per key: what the upsert of compile and test records keeps and changes.
use rules_verilog.Base.{
  ◌⊎◌, inl, inr, Bool-cases, ◌++◌, ℕ, suc, ◌≤◌, ◌≡◌, refl, ap, Bool, true, String, Option, none,
  some, List, [], ◌∷◌, length, any, if◌then◌else◌, arith,
}
use rules_verilog.Results.Text.{str_eq, str_eq_iff, same_text}
use rules_verilog.Results.Records.{
  Test, Run, upsert, same_number, same_vcomp, same_test, record_test_job,
}
use rules_verilog.Results.Final.{count_if}

-- A test on pairs that is an equality of keys.
pub record IsKeyTest {ℓ} {A : Type ℓ} (same : A → A → Bool) : Type ℓ where
  pub reflexive : (a : A) → same a a ≡ true
  pub left : (a b c : A) → same a b ≡ true → same a c ≡ same b c
  pub right : (a b c : A) → same a b ≡ true → same c a ≡ same c b

module _ {ℓ} {A : Type ℓ} (same : A → A → Bool) (k : IsKeyTest same) where
  -- How many items have the key of `a`.
  abbrev pub occurrences : A → List A → ℕ
  occurrences a items = count_if (λ i. same i a) items

  -- Afterwards exactly one item has the key of the value if none or one had it before, and every
  -- other key occurs as often as before.
  pub occurrences-upsert :
      (value a : A) (items : List A)
      → occurrences value items ≤ 1
      → occurrences a (upsert same value items) ≡ (if same value a then 1 else occurrences a items)
  unfolding upsert
  occurrences-upsert value a [] h = ground arith
  occurrences-upsert value a (i ∷ items) h =
      ground (
        arith,
        occurrences-upsert value a items,
        k.left i value a,
        k.right value a i,
        no_more items,
      )
    where
      no_more : (l : List A) → occurrences value l ≤ 0 → same value a ≡ true → occurrences a l ≡ 0
      no_more [] e s = refl
      no_more (j ∷ l) e s = ground (arith, no_more l, k.right value a j)

  -- The place of every item is kept: the list grows only where the key is new.
  pub length-upsert :
      (value : A) (items : List A)
      → length (upsert same value items)
        ≡ (if any (λ i. same i value) items then length items else suc (length items))
  unfolding upsert
  length-upsert value [] = refl
  length-upsert value (i ∷ items) = ground (arith, length-upsert value items)

  -- The value stands where the record of its key stood, or at the end where there was none.
  abbrev pub PutAt : A → List A → List A → Type ℓ
  PutAt value before after =
      (occurrences value before ≡ 0) × (after ≡ before ++ (value ∷ []))
      ⊎ (front : List A) × (old : A) × (back : List A) × (before ≡ front ++ (old ∷ back))
        × (same old value ≡ true)
        × (occurrences value front ≡ 0)
        × (after ≡ front ++ (value ∷ back))

  upsert-PutAt : (value : A) (items : List A) → PutAt value items (upsert same value items)
  unfolding upsert
  upsert-PutAt value [] = inl (refl, refl)
  upsert-PutAt value (i ∷ items) = elim (Bool-cases (same i value)) [
    | inl found ↦ rw found (inr ([], i, items, refl, found, refl, refl))
    | inr other ↦ rw other (elim (upsert-PutAt value items) [
      | inl absent ↦ inl (absent.0, ap (λ l. i ∷ l) absent.1)
      | inr (front, old, back, split, key, first, put) ↦
          inr
            (i ∷ front, old, back, ap (λ l. i ∷ l) split, key, rw other first, ap (λ l. i ∷ l) put)
    ])
  ]

str_refl : (s : String) → str_eq s s ≡ true
str_refl s = (str_eq_iff s s).1 refl

pub same_text_refl : (a : Option String) → same_text a a ≡ true
same_text_refl none = refl
same_text_refl (some s) = str_refl s

pub same_text_eq : (a b : Option String) → same_text a b ≡ true → a ≡ b
same_text_eq none none h = refl
same_text_eq none (some b) h = cc
same_text_eq (some a) none h = cc
same_text_eq (some a) (some b) h = ap some ((str_eq_iff a b).0 h)

same_number_refl : (a : Option ℕ) → same_number a a ≡ true
same_number_refl none = refl
same_number_refl (some n) = ground arith

pub same_number_eq : (a b : Option ℕ) → same_number a b ≡ true → a ≡ b
same_number_eq none none h = refl
same_number_eq none (some b) h = cc
same_number_eq (some a) none h = cc
same_number_eq (some a) (some b) h = ground arith

pub same_vcomp-IsKeyTest : IsKeyTest same_vcomp
same_vcomp-IsKeyTest = record {
  reflexive = λ a. same_text_refl a.vcomp_target;
  left = λ a b c h.
      ap (λ t. same_text t c.vcomp_target) (same_text_eq a.vcomp_target b.vcomp_target h);
  right = λ a b c h.
      ap (λ t. same_text c.vcomp_target t) (same_text_eq a.vcomp_target b.vcomp_target h);
}

-- Equal keys are equal fields.
pub same_test_eq :
    (a b : Test)
    → same_test a b ≡ true
    → (a.target ≡ b.target) × (a.iteration ≡ b.iteration) × (a.seed ≡ b.seed)
same_test_eq a b h = ground (
  arith,
  same_text_eq a.target b.target,
  same_number_eq a.iteration b.iteration,
  same_number_eq a.seed b.seed,
)

pub same_test-IsKeyTest : IsKeyTest same_test
same_test-IsKeyTest = record {
  reflexive = λ a.
      ground
        (arith, same_text_refl a.target, same_number_refl a.iteration, same_number_refl a.seed);
  left = λ a b c h. let e = same_test_eq a b h in rw (e.0, e.1, e.2) refl;
  right = λ a b c h. let e = same_test_eq a b h in rw (e.0, e.1, e.2) refl;
}

-- Every test key, of target, iteration and seed, has at most one record.
abbrev pub AreUnique : Run → Type 0
AreUnique run = (t : Test) → occurrences same_test same_test-IsKeyTest t run.tests ≤ 1

-- Recording a test puts the new record in the place of the first one of its key, or at the end where
-- there is none, and leaves all others as they are. If no key had more than one record, then the key
-- has one afterwards, every other key as many as before, and so none more than one.
pub record_test_job-occurrences :
    (value a : Test) (run : Run)
    → AreUnique run
    → (occurrences same_test same_test-IsKeyTest a (record_test_job value run).tests
        ≡ (if same_test value a then 1 else occurrences same_test same_test-IsKeyTest a run.tests))
      × AreUnique (record_test_job value run)
      × PutAt same_test same_test-IsKeyTest value run.tests (record_test_job value run).tests
unfolding record_test_job
record_test_job-occurrences value a run h =
    let law =
      λ (b : Test). occurrences-upsert same_test same_test-IsKeyTest value b run.tests (h value) in
    (
      law a,
      (λ b. ground (arith, law b, h b)),
      upsert-PutAt same_test same_test-IsKeyTest value run.tests,
    )
