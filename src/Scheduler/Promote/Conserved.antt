-- ===== src/Scheduler/Promote/Conserved.antt =====
-- What a pass over the todo queue does to each job, by induction on the pass.
use rules_verilog.Base.{
  ℕ, ◌+◌, ◌≤◌, ◌≡◌, ◌⊎◌, inl, inr, refl, true, Option, none, some, List, [], ◌∷◌, length, count,
  one_if, ◌==◌, ==_iff, ==_refl, all, Bool-cases, subst, sym, ap, ◌∙◌, count-append, arith, All,
}
use rules_verilog.Status.{JobStatus, skipped, completed, successful}
use rules_verilog.Queue.Counting.{count-insort_right}
use rules_verilog.Scheduler.State.{Statuses, assign, set_at, Graph}
use rules_verilog.Scheduler.Waiting.{
  IsWaiting, IsWaiting-tail, IsWaiting-marked, assign_uncompleted,
}
use rules_verilog.Scheduler.Promote.{wait, promote, judge}
use rules_verilog.Scheduler.Promote.Removal.{Pass, stop, stay, go, drop_out}

abbrev from_some : Statuses → Option Statuses → Statuses
from_some d none = d
from_some d (some s) = s

-- What the setter stored for a waiting job.
pub assigned :
    {st mid : Statuses} {j : ℕ} {js : List ℕ}
    → IsWaiting st (j ∷ js)
    → assign j skipped st ≡ some mid
    → mid ≡ set_at j skipped st
assigned {st} {mid} {j} w e =
    ap (from_some st)
      (sym e ∙ assign_uncompleted j st (w.uncompleted j (ground (arith, ==_refl j))))

-- A job that has succeeded is completed.
successful-completed : (s : JobStatus) → successful s ≡ true → completed s ≡ true
successful-completed s h = ground arith

-- Dependencies that have succeeded stay so, where completed jobs keep their status.
pub deps_stable :
    (st st' : Statuses) (ds : List ℕ)
    → ((z : ℕ) → completed (st z) ≡ true → st' z ≡ st z)
    → all (λ d. successful (st d)) ds ≡ true
    → all (λ d. successful (st' d)) ds ≡ true
deps_stable st st' [] keep h = refl
deps_stable st st' (d ∷ ds) keep h =
    ground (arith, keep d, successful-completed (st d), deps_stable st st' ds keep)

module _ (g : Graph) where
  -- The jobs that wait behind the first one wait in the statuses with which the pass goes on.
  pub rejected-IsWaiting :
      {st mid : Statuses} {j : ℕ} {js : List ℕ}
      → IsWaiting st (j ∷ js)
      → assign j skipped st ≡ some mid
      → IsWaiting mid js
  rejected-IsWaiting {js = js} w e =
      subst (λ s. IsWaiting s js) (sym (assigned w e)) (IsWaiting-marked w)

  pub Pass-counts :
      {js rd sk rd' sk' kept : List ℕ} {st st' : Statuses} (z : ℕ)
      → Pass g js st rd sk st' rd' sk' kept
      → (count z kept + count z rd' + count z sk' ≡ count z js + count z rd + count z sk)
        × (count z kept ≤ count z js)
        × (count z rd ≤ count z rd')
        × (count z sk ≤ count z sk')
        × (length kept ≤ length js)
  Pass-counts z stop = omega arith
  Pass-counts z (stay h p) = omega (arith, Pass-counts z p)
  Pass-counts z (go {j = j} {rd = rd} h p) =
      omega (arith, Pass-counts z p, count-insort_right g.priority z j rd)
  Pass-counts z (drop_out {j = j} {sk = sk} h e p) =
      omega (arith, Pass-counts z p, count-append z sk (j ∷ []))

  -- A status changes only for a job that leaves the queue, and then to `skipped`.
  pub Pass-marks :
      {js rd sk rd' sk' kept : List ℕ} {st st' : Statuses} (z : ℕ)
      → IsWaiting st js
      → Pass g js st rd sk st' rd' sk' kept
      → (st' z ≡ st z)
        ⊎ (st' z ≡ skipped) × (count z js ≡ 1) × (count z kept ≡ 0) × (count z rd' ≡ count z rd)
  Pass-marks z w stop = inl refl
  Pass-marks z w (stay {j = j} h p) =
      ground (arith, Pass-marks z (IsWaiting-tail w) p, w.once z, Pass-counts z p)
  Pass-marks z w (go {j = j} {rd = rd} h p) = ground (
    arith,
    Pass-marks z (IsWaiting-tail w) p,
    w.once z,
    Pass-counts z p,
    count-insort_right g.priority z j rd,
  )
  Pass-marks z w (drop_out {j = j} {st = st} {mid = mid} h e p) = ground (
    arith,
    Pass-marks z (rejected-IsWaiting w e) p,
    w.once z,
    Pass-counts z p,
    ap (λ f. f z) (assigned w e),
    ==_iff z j,
  )

  -- Completed jobs keep their status.
  pub Pass-stable :
      {js rd sk rd' sk' kept : List ℕ} {st st' : Statuses} (z : ℕ)
      → IsWaiting st js
      → Pass g js st rd sk st' rd' sk' kept
      → completed (st z) ≡ true
      → st' z ≡ st z
  Pass-stable z w p c = ground (arith, Pass-marks z w p, w.uncompleted z)

  judge_promote :
      (st : Statuses) (ds : List ℕ) → judge st ds ≡ promote → all (λ d. successful (st d)) ds ≡ true
  unfolding judge
  judge_promote st [] h = refl
  judge_promote st (d ∷ ds) h = ground arith

  -- A job that reaches the ready queue has dependencies that all succeeded, and still have when the
  -- pass is over.
  pub Pass-promoted :
      {js rd sk rd' sk' kept : List ℕ} {st st' : Statuses} (z : ℕ)
      → IsWaiting st js
      → Pass g js st rd sk st' rd' sk' kept
      → (count z rd' ≡ count z rd) ⊎ (all (λ d. successful (st' d)) (g.deps z) ≡ true)
  Pass-promoted z w stop = inl refl
  Pass-promoted z w (stay h p) = Pass-promoted z (IsWaiting-tail w) p
  Pass-promoted z w (drop_out h e p) = Pass-promoted z (rejected-IsWaiting w e) p
  Pass-promoted z w (go {j = j} {rd = rd} {st = st} {st' = st'} h p) = elim (Bool-cases (z == j)) [
    | inl same ↦
        let e = (==_iff z j).0 same in
        inr (
          subst (λ y. all (λ d. successful (st' d)) (g.deps y) ≡ true) (sym e)
            (deps_stable st st' (g.deps j) (λ y. Pass-stable y (IsWaiting-tail w) p)
              (judge_promote st (g.deps j) h)))
    | inr other ↦ elim (Pass-promoted z (IsWaiting-tail w) p) [
      | inl e ↦ inl (e ∙ omega (arith, count-insort_right g.priority z j rd, ap one_if other))
      | inr d ↦ inr d
    ]
  ]

  -- A pass that keeps every job of the queue has found each of them waiting for a dependency.
  pub Pass-idle :
      {js rd sk rd' sk' kept : List ℕ} {st st' : Statuses}
      → Pass g js st rd sk st' rd' sk' kept
      → length kept ≡ length js
      → All (λ j. judge st (g.deps j) ≡ wait) js
  Pass-idle stop e = tt
  Pass-idle (stay h p) e = (h, Pass-idle p (omega arith))
  Pass-idle (go h p) e = absurd (omega (arith, Pass-counts 0 p))
  Pass-idle (drop_out h e' p) e = absurd (omega (arith, Pass-counts 0 p))
