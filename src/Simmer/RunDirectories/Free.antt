-- ===== src/Simmer/RunDirectories/Free.antt =====
-- bin/simmer.py, _claim_run_directory: the end of its search.
use text.Mathlib.TextLemmas.{append_cancel_left, length-append}
use Prim.Native.String.{count, ◌++◌ as ◌^◌}
use rules_verilog.Base.{
  ℕ, zero, suc, ◌≤◌, ◌<◌, ◌≡◌, ◌≢◌, inl, inr, refl, sym, ap, subst, Bool, true, false, String, some,
  List, [], ◌∷◌, length, ◌==◌, ==_iff, Bool-cases, if◌then◌else◌, arith,
}
use rules_verilog.Results.Text.{has, str_eq, str_eq_iff}
use rules_verilog.Simmer.RunDirectories.{directory_name, claim_from, claim_run_directory}

without : String → List String → List String
without p [] = []
without p (q ∷ qs) = if str_eq p q then qs else q ∷ without p qs

length-without :
    (p : String) (qs : List String) → has p qs ≡ true → suc (length (without p qs)) ≡ length qs
unfolding without
length-without p [] h = ground arith
length-without p (q ∷ qs) h = ground (arith, length-without p qs)

has-without :
    (p r : String) (qs : List String)
    → str_eq r p ≡ false
    → has r qs ≡ true
    → has r (without p qs) ≡ true
unfolding without
has-without p r [] d h = h
has-without p r (q ∷ qs) d h =
    ground (arith, has-without p r qs d, str_eq_iff p q, str_eq_iff r q, str_eq_iff r p)

module _ (digits : ℕ → String) (digits_inj : (m n : ℕ) → digits m ≡ digits n → m ≡ n) (pid : ℕ)
    (base : String) where
  name : ℕ → String
  name i = directory_name digits pid base i

  names_differ : (i k : ℕ) → i < k → name i ≢ name k
  unfolding name directory_name
  names_differ zero zero l e = absurd (omega arith)
  names_differ zero (suc zero) l e = absurd (
      omega (
        arith,
        ap count e,
        length-append base ("__run_p" ^ digits pid),
        length-append "__run_p" (digits pid),
      ))
  names_differ zero (suc (suc k)) l e = absurd (
      omega (
        arith,
        ap count e,
        length-append base (("__run_p" ^ digits pid) ^ ("_" ^ digits (suc (suc k)))),
        length-append ("__run_p" ^ digits pid) ("_" ^ digits (suc (suc k))),
        length-append "__run_p" (digits pid),
      ))
  names_differ (suc zero) (suc (suc k)) l e = absurd (
      omega (
        arith,
        ap count (append_cancel_left base _ _ e),
        length-append ("__run_p" ^ digits pid) ("_" ^ digits (suc (suc k))),
        length-append "_" (digits (suc (suc k))),
      ))
  names_differ (suc (suc i)) (suc (suc k)) l e =
      let same =
        append_cancel_left "_" (digits (suc (suc i))) (digits (suc (suc k)))
          (append_cancel_left ("__run_p" ^ digits pid) _ _ (append_cancel_left base _ _ e)) in
      absurd (omega (arith, digits_inj (suc (suc i)) (suc (suc k)) same))
  names_differ (suc i) zero l e = absurd (omega arith)
  names_differ (suc zero) (suc zero) l e = absurd (omega arith)
  names_differ (suc (suc i)) (suc zero) l e = absurd (omega arith)

  other_name : (i k : ℕ) → i < k → str_eq (name k) (name i) ≡ false
  other_name i k l = elim (Bool-cases (str_eq (name k) (name i))) [
    | inl same ↦ absurd (names_differ i k l (sym ((str_eq_iff (name k) (name i)).0 same)))
    | inr other ↦ other
  ]

  claim_from_ends :
      (bound i : ℕ) (can_lock : String → Bool) (busy : List String)
      → ((k : ℕ) → i ≤ k → can_lock (name k) ≡ false → has (name k) busy ≡ true)
      → length busy < bound
      → (k : ℕ) × (claim_from digits bound can_lock pid base i ≡ some (k, name k))
        × (can_lock (name k) ≡ true)
        × ((j : ℕ) → i ≤ j → j < k → can_lock (name j) ≡ false)
  unfolding claim_from name
  claim_from_ends zero i can_lock busy known l = absurd (omega arith)
  claim_from_ends (suc bound) i can_lock busy known l = elim (Bool-cases (can_lock (name i))) [
    | inl free ↦ (i, rw free refl, free, λ j a b. absurd (omega arith))
    | inr taken ↦
        let fewer = length-without (name i) busy (known i (omega arith) taken) in
        let rest =
          claim_from_ends bound (suc i) can_lock (without (name i) busy)
            (λ k a b.
              has-without (name i) (name k) busy (other_name i k (omega arith))
                (known k (omega arith) b))
            (omega (arith, fewer)) in
        (
          rest.0,
          rw taken rest.1,
          rest.2,
          λ j a b. elim (Bool-cases (j == i)) [
            | inl here ↦ subst (λ n. can_lock (name n) ≡ false) (sym ((==_iff j i).0 here)) taken
            | inr later ↦ rest.3 j (ground arith) b
          ],
        )
  ]

  -- When different numbers have different texts, the search for a run directory ends, with a bound
  -- above the number of directories that are in use, and claims the first one that can be locked.
  pub claim_run_directory_ends :
      (can_lock : String → Bool) (busy : List String)
      → ((p : String) → can_lock p ≡ false → has p busy ≡ true)
      → (bound : ℕ) → length busy < bound
      → (k : ℕ) × (claim_run_directory digits bound can_lock pid base
          ≡ some (k, directory_name digits pid base k))
        × (can_lock (directory_name digits pid base k) ≡ true)
        × ((j : ℕ) → j < k → can_lock (directory_name digits pid base j) ≡ false)
  unfolding claim_run_directory name
  claim_run_directory_ends can_lock busy known bound l =
      let found = claim_from_ends bound 0 can_lock busy (λ k a b. known (name k) b) l in
      (found.0, found.1, found.2, λ j b. found.3 j (omega arith) b)
