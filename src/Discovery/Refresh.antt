-- ===== src/Discovery/Refresh.antt =====
-- lib/regression.py, RegressionConfig.test_discovery_all and the part of __init__ that decides between
-- the cache and Bazel. The tests found by one round of Bazel, and the manifests of the checkout before
-- and after it, are what the round observes.
use rules_verilog.Base.{
  ℕ, zero, suc, ◌+◌, ◌≤◌, ◌<◌, ◌≡◌, ◌⊎◌, inl, inr, refl, Bool, true, false, ◌&&◌, Option, none,
  some, Bool-cases, if◌then◌else◌, arith, subst, ltb,
}
use rules_verilog.Discovery.Cache.{Manifest, same_manifest}

pub record Round {ℓ} (A : Type ℓ) : Type ℓ where
  pub manifest_before : Manifest
  pub found : A
  pub manifest_after : Manifest

abbrev pub max_source_retries : ℕ
max_source_retries = 2

module _ {ℓ} {A : Type ℓ} (round : ℕ → Round A) where
  abbrev pub is_stable : ℕ → Bool
  is_stable i = same_manifest (round i).manifest_before (round i).manifest_after

  -- The loop `for attempt in range(...)`: the round that is published, with its number, or the exit
  -- by `log.critical` behind the loop.
  unfoldable pub attempts : (left : ℕ) → (attempt : ℕ) → Option ℕ
  attempts zero i = none
  attempts (suc left) i = let rest = attempts left (suc i) in if is_stable i then some i else rest

  unfoldable pub test_discovery_all : Option ℕ
  unfolding attempts
  test_discovery_all = attempts (max_source_retries + 1) 0

  attempts_first :
      (left i : ℕ)
      → (attempts left i ≡ none) × ((k : ℕ) → i ≤ k → k < i + left → is_stable k ≡ false)
        ⊎ ((j : ℕ) × (attempts left i ≡ some j)
            × (i ≤ j)
            × (j < i + left)
            × (is_stable j ≡ true)
            × ((k : ℕ) → i ≤ k → k < j → is_stable k ≡ false))
  unfolding attempts
  attempts_first zero i = inl (refl, λ k a b. absurd (omega arith))
  attempts_first (suc left) i = elim (Bool-cases (is_stable i)) [
    | inl stable ↦
        inr (i, rw stable refl, omega arith, omega arith, stable, λ k a b. absurd (omega arith))
    | inr changed ↦ elim (attempts_first left (suc i)) [
      | inl (e, all) ↦ inl (
        rw changed e,
        λ k a b. elim (Bool-cases (ltb i k)) [
          | inl later ↦ all k (ground arith) (omega arith)
          | inr same ↦ subst (λ n. is_stable n ≡ false) (ground arith) changed
        ],
      )
      | inr (j, e, a, b, stable, all) ↦ inr (
        j,
        rw changed e,
        omega arith,
        omega arith,
        stable,
        λ k c d. elim (Bool-cases (ltb i k)) [
          | inl later ↦ all k (ground arith) d
          | inr same ↦ subst (λ n. is_stable n ≡ false) (ground arith) changed
        ],
      )
    ]
  ]

  -- The discovery ends after at most three rounds of Bazel. It publishes the first round during which
  -- the checkout did not change, and exits with an error exactly if it changed in each of the three.
  pub test_discovery_all-first :
      (test_discovery_all ≡ none) × ((k : ℕ) → k < 3 → is_stable k ≡ false)
      ⊎ ((j : ℕ) × (test_discovery_all ≡ some j)
          × (j < 3)
          × (is_stable j ≡ true)
          × ((k : ℕ) → k < j → is_stable k ≡ false))
  unfolding test_discovery_all
  test_discovery_all-first = elim (attempts_first 3 0) [
    | inl (e, all) ↦ inl (e, λ k a. all k (omega arith) (omega arith))
    | inr (j, e, a, b, stable, all) ↦ inr (j, e, omega arith, stable, λ k c. all k (omega arith) c)
  ]

-- What `__init__` does with the cache: it is used, or Bazel is asked, or the program exits because
-- `--no-bazel` was given and does not allow that.
pub data Plan : Type 0 where
  use_cache ask_bazel exit : Plan

unfoldable pub plan_discovery : (cached no_bazel no_bazel_was_explicit : Bool) → Plan
plan_discovery cached no_bazel no_bazel_was_explicit =
    if cached then use_cache else if no_bazel && no_bazel_was_explicit then exit else ask_bazel
