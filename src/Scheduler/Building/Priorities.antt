-- ===== src/Scheduler/Building/Priorities.antt =====
-- lib/job_lib.py, Job.increase_priority: how a raise spreads over the dependencies.
use rules_verilog.Base.{
  ℕ, zero, suc, ◌+◌, ◌≤◌, ◌<◌, ◌≡◌, inl, inr, refl, sym, ap, ◌∙◌, subst, true, false, List, [], ◌∷◌,
  elem, arith, ◌==◌, ==_iff, ==_refl, Bool-cases,
}
use rules_verilog.Base.Int.{ℤ, pos, negsuc, neg_part, ◌+ℤ◌}
use rules_verilog.Scheduler.State.{Graph}
use rules_verilog.Scheduler.Building.{for_all, raise_one, increase_priority}

abbrev pub urgency : Graph → ℕ → ℕ
urgency g j = neg_part (g.priority j)

add_negative : (p : ℤ) (w : ℕ) → 0 < neg_part p → neg_part (p +ℤ negsuc w) ≡ neg_part p + suc w
unfolding ◌+ℤ◌
add_negative (pos n) w h = omega arith
add_negative (negsuc n) w h = ground arith

module _ (rank : ℕ → ℕ) where
  -- What a raise of jobs below a rank does: the jobs become more urgent, each dependency by no less
  -- than the job that has it.
  pub record Raises (top : ℕ) (g h : Graph) : Type 0 where
    pub same : h.deps ≡ g.deps
    pub grows : (a : ℕ) → urgency g a ≤ urgency h a
    pub edges :
        (a b : ℕ) → elem b (g.deps a) ≡ true → urgency h a + urgency g b ≤ urgency h b + urgency g a
    pub above : (a : ℕ) → top ≤ rank a → urgency h a ≡ urgency g a

  Raises-none : (top : ℕ) (g : Graph) → Raises top g g
  Raises-none top g = record {
    same = refl;
    grows = λ a. omega arith;
    edges = λ a b h. omega arith;
    above = λ a h. refl;
  }

  Raises-trans : {top : ℕ} {g h k : Graph} → Raises top g h → Raises top h k → Raises top g k
  Raises-trans {top} {g} {h} {k} u v = record {
    same = v.same ∙ u.same;
    grows = λ a. omega (arith, u.grows a, v.grows a);
    edges = λ a b e.
        omega
          (arith, u.edges a b e, v.edges a b (subst (λ ds. elem b (ds a) ≡ true) (sym u.same) e));
    above = λ a e. v.above a e ∙ u.above a e;
  }

  Raises-weaken : {top more : ℕ} {g h : Graph} → top ≤ more → Raises top g h → Raises more g h
  Raises-weaken l u = record {
    same = u.same;
    grows = u.grows;
    edges = u.edges;
    above = λ a e. u.above a (omega arith);
  }

  unfoldable pub IsDescending : Graph → Type 0
  IsDescending g = (a b : ℕ) → elem b (g.deps a) ≡ true → rank b < rank a

  unfoldable pub IsNegative : Graph → Type 0
  IsNegative g = (a : ℕ) → 0 < urgency g a

  module _ (w : ℕ) where
    raised_here :
        (x : ℕ) (g : Graph)
        → 0 < urgency g x
        → urgency (raise_one x (negsuc w) g) x ≡ urgency g x + suc w
    raised_here x g h = rw (==_refl x) (add_negative (g.priority x) w h)

    raised_other :
        (a x : ℕ) (g : Graph) → a == x ≡ false → urgency (raise_one x (negsuc w) g) a ≡ urgency g a
    raised_other a x g h = rw h refl

    raised_grows :
        (a x : ℕ) (g : Graph) → IsNegative g → urgency g a ≤ urgency (raise_one x (negsuc w) g) a
    unfolding IsNegative
    raised_grows a x g n = elim (Bool-cases (a == x)) [
      | inl same ↦
          subst (λ b. urgency g b ≤ urgency (raise_one x (negsuc w) g) b)
            (sym ((==_iff a x).0 same)) (omega (arith, raised_here x g (n x)))
      | inr other ↦ omega (arith, raised_other a x g other)
    ]

    raised-IsNegative : (x : ℕ) (g : Graph) → IsNegative g → IsNegative (raise_one x (negsuc w) g)
    unfolding IsNegative
    raised-IsNegative x g n a = omega (arith, n a, raised_grows a x g n)

    -- A job and then its dependencies are raised.
    raised-Raises :
        (x : ℕ) (g h : Graph)
        → IsNegative g
        → Raises (rank x) (raise_one x (negsuc w) g) h
        → ((d : ℕ)
            → elem d (g.deps x) ≡ true
            → urgency (raise_one x (negsuc w) g) d + suc w ≤ urgency h d)
        → Raises (suc (rank x)) g h
    unfolding IsNegative
    raised-Raises x g h n u hits = record {
      same = u.same;
      grows = λ a. omega (arith, u.grows a, raised_grows a x g n);
      edges = λ a b e. elim (Bool-cases (a == x)) [
        | inl same ↦
            subst
              (λ c.
                elem b (g.deps c) ≡ true → urgency h c + urgency g b ≤ urgency h b + urgency g c)
              (sym ((==_iff a x).0 same))
              (λ i. omega (
                arith,
                u.above x (omega arith),
                raised_here x g (n x),
                hits b i,
                raised_grows b x g n,
              ))
              e
        | inr other ↦ omega (arith, u.edges a b e, raised_other a x g other, raised_grows b x g n)
      ];
      above = λ a e. elim (Bool-cases (a == x)) [
        | inl same ↦ omega (arith, ap rank ((==_iff a x).0 same))
        | inr other ↦ omega (arith, u.above a (omega arith), raised_other a x g other)
      ];
    }

    -- The jobs of a list are raised, one after another.
    for_all-Raises :
        (f : ℕ → Graph → Graph) (top : ℕ) (ds : List ℕ) (g : Graph)
        → ((d : ℕ) (h : Graph)
            → rank d < top
            → IsDescending h
            → IsNegative h
            → Raises (suc (rank d)) h (f d h) × (urgency h d + suc w ≤ urgency (f d h) d))
        → ((d : ℕ) → elem d ds ≡ true → rank d < top)
        → IsDescending g
        → IsNegative g
        → Raises top g (for_all f ds g)
          × ((d : ℕ) → elem d ds ≡ true → urgency g d + suc w ≤ urgency (for_all f ds g) d)
    unfolding IsNegative IsDescending
    for_all-Raises f top [] g step below acyclic n = (Raises-none top g, λ d e. ground arith)
    for_all-Raises f top (d ∷ ds) g step below acyclic n =
        let l : rank d < top = below d (ground (arith, ==_refl d)) in
        let first = step d g l acyclic n in
        let rest =
          for_all-Raises f top ds (f d g) step (λ c e. below c (ground arith))
            (λ a b e. acyclic a b (subst (λ q. elem b (q a) ≡ true) first.0.same e))
            (λ a. omega (arith, first.0.grows a, n a)) in
        (
          Raises-trans (Raises-weaken l first.0) rest.0,
          λ c e. elim (Bool-cases (c == d)) [
            | inl same ↦
                subst (λ b. urgency g b + suc w ≤ urgency (for_all f ds (f d g)) b)
                  (sym ((==_iff c d).0 same)) (omega (arith, first.1, rest.0.grows d))
            | inr other ↦ omega (arith, first.0.grows c, rest.1 c (ground arith))
          ],
        )

    increase_priority-Raises :
        (bound x : ℕ) (g : Graph)
        → rank x < bound
        → IsDescending g
        → IsNegative g
        → Raises (suc (rank x)) g (increase_priority bound x (negsuc w) g)
          × (urgency g x + suc w ≤ urgency (increase_priority bound x (negsuc w) g) x)
    unfolding increase_priority IsNegative IsDescending
    increase_priority-Raises zero x g l acyclic n = (Raises-none (suc (rank x)) g, omega arith)
    increase_priority-Raises (suc bound) x g l acyclic n =
        let raised = raise_one x (negsuc w) g in
        let r =
          for_all-Raises (λ d h. increase_priority bound d (negsuc w) h) (rank x) (g.deps x) raised
            (λ d h k. increase_priority-Raises bound d h (omega arith)) (λ d e. acyclic x d e)
            acyclic (raised-IsNegative x g n) in
        (
          raised-Raises x g
              (for_all (λ d h. increase_priority bound d (negsuc w) h) (g.deps x) raised) n r.0 r.1,
          omega (arith, raised_here x g (n x), r.0.above x (omega arith)),
        )

  pub increase_by :
      (value : ℤ) (bound x : ℕ) (g : Graph)
      → 0 < neg_part value
      → rank x < bound
      → IsDescending g
      → IsNegative g
      → Raises (suc (rank x)) g (increase_priority bound x value g)
        × (urgency g x + neg_part value ≤ urgency (increase_priority bound x value g) x)
  increase_by (pos k) bound x g p l acyclic n = absurd (omega arith)
  increase_by (negsuc w) bound x g p l acyclic n = increase_priority-Raises w bound x g l acyclic n
