-- ===== src/Queue.antt =====
-- The scheduler's queues are Python lists of jobs in priority order: `bisect.insort_right` of the
-- standard library, as lib/job_lib.py calls it, over the order of `Job.__lt__`. A job is named by
-- its number, and `key` gives the priority of each job.
pub mod Bisect
pub mod Counting
mod Examples
use rules_verilog.Base.{
  ℕ, zero, suc, ◌+◌, ◌-◌, ◌*◌, ◌/◌, ◌≡◌, Bool, true, false, Option, none, some, List, [], ◌∷◌, ◌++◌,
  length, take, drop, get_elem?, ltb, if◌then◌else◌,
}
use rules_verilog.Base.Int.{ℤ, ltbℤ, ◌≤ℤ◌}

module _ (key : ℕ → ℤ) where
  -- `Job.__lt__`.
  abbrev pub precedes : ℕ → ℕ → Bool
  precedes x y = ltbℤ (key x) (key y)

  -- The test of the bisection at one index. The index is always in range.
  abbrev pub before_middle : ℕ → Option ℕ → Bool
  before_middle x none = true
  before_middle x (some y) = precedes x y

  -- The loop of `bisect_right`, `while lo < hi`, by recursion on a bound for `hi - lo`.
  pub bisect_right : ℕ → ℕ → List ℕ → ℕ → ℕ → ℕ
  bisect_right zero x l lo hi = lo
  bisect_right (suc bound) x l lo hi =
      let middle = (lo + hi) / 2 in
      let left = bisect_right bound x l lo middle in
      let right = bisect_right bound x l (suc middle) hi in
      if ltb lo hi then (if before_middle x (get_elem? l middle) then left else right) else lo

  abbrev pub insert_at : ℕ → ℕ → List ℕ → List ℕ
  insert_at i x l = take i l ++ (x ∷ drop i l)

  unfoldable pub insort_right : ℕ → List ℕ → List ℕ
  unfolding bisect_right
  insort_right x l = insert_at (bisect_right (length l) x l 0 (length l)) x l
