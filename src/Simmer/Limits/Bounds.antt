-- ===== src/Simmer/Limits/Bounds.antt =====
-- The bounds of the job limit.
use native.Mathlib.Nat.{div-mul-le_self, mul-le-mul_right}
use rules_verilog.Base.{
  ℕ, ◌*◌, ◌/◌, ◌≤◌, max, ◌≡◌, Bool, Option, none, some, List, arith, leb, ◌⊎◌, inl, inr, Bool-cases,
}
use rules_verilog.Cpus.{Texts, Environment, detect_allocated_cpus}
use rules_verilog.Simmer.Limits.{sum, get_active_job_limit}

at_most :
    (limit q threads cpus : ℕ)
    → 1 ≤ limit
    → limit ≤ max 1 q
    → q * threads ≤ cpus
    → (limit ≡ 1) ⊎ (limit * threads ≤ cpus)
at_most limit q threads cpus low high fits = elim (Bool-cases (leb limit 1)) [
  | inl one ↦ inl (ground arith)
  | inr more ↦ inr (grind (arith, mul-le-mul_right))
]

module _ (t : Texts) where
  -- The limit is at least 1 and, but for that, no more than the planned tests and the jobs that were
  -- asked for; when no number of jobs was asked for, as many tests at once as the limit says take no
  -- more threads than there are CPUs, unless the limit is 1.
  pub get_active_job_limit-cpus :
      (targets : List ℕ) (gui : Bool) (jobs : Option ℕ) (e : Environment) (threads : ℕ)
      → let limit = get_active_job_limit t targets gui jobs e threads in
        (1 ≤ limit)
        × (limit ≤ max 1 (sum targets))
        × ((n : ℕ) → jobs ≡ some n → limit ≤ max 1 n)
        × (jobs ≡ none → (limit ≡ 1) ⊎ (limit * threads ≤ (detect_allocated_cpus t e).0))
  unfolding get_active_job_limit
  get_active_job_limit-cpus targets gui jobs e threads = (
    ground arith,
    ground arith,
    λ n h. ground arith,
    λ h.
        let cpus = (detect_allocated_cpus t e).0 in
        at_most (get_active_job_limit t targets gui jobs e threads) (cpus / threads) threads cpus
          (ground arith) (ground arith) (div-mul-le_self cpus threads),
  )
