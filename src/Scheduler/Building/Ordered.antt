-- ===== src/Scheduler/Building/Ordered.antt =====
-- lib/job_lib.py: the priorities that add_dependency gives, and the queue that is sorted by them.
use rules_verilog.Base.{
  ℕ, ◌<◌, ◌≡◌, ◌⊎◌, inl, inr, refl, sym, ap, subst, true, false, some, List, [], ◌∷◌, ◌++◌, elem,
  arith, ◌==◌, ==_iff, not, ◌&&◌, Bool-cases, if◌then◌else◌, All,
}
use rules_verilog.Base.Int.{ℤ, pos, negsuc, pos_part, neg_part, ◌≤ℤ◌}
use rules_verilog.Queue.{insort_right}
use rules_verilog.Queue.Bisect.{IsSorted, insort_right-stable}
use rules_verilog.Scheduler.Control.{add_job}
use rules_verilog.Scheduler.Thread.Sleep.{IsOrdered}
use rules_verilog.Scheduler.State.{Manager, Statuses, Graph, Mode, fresh}
use rules_verilog.Scheduler.Building.{
  new_jobs, increase_priority, link, add_dependency, add_dependencies, add_jobs,
}
use rules_verilog.Scheduler.Building.Priorities.{urgency, IsDescending, IsNegative, increase_by}

one_sign : (p : ℤ) → 0 < neg_part p → pos_part p ≡ 0
one_sign (pos n) h = absurd (omega arith)
one_sign (negsuc n) h = refl

elem-append_one :
    (b d : ℕ) (xs : List ℕ) → elem b (xs ++ (d ∷ [])) ≡ true → (elem b xs ≡ true) ⊎ (b ≡ d)
elem-append_one b d [] h = inr ((==_iff b d).0 (ground arith))
elem-append_one b d (x ∷ xs) h = elim (Bool-cases (b == x)) [
  | inl first ↦ inl (ground arith)
  | inr later ↦ elim (elem-append_one b d xs (ground arith)) [
    | inl i ↦ inl (ground arith)
    | inr e ↦ inr e
  ]
]

link_edge :
    (j d a b : ℕ) (g : Graph)
    → elem b ((link j d g).deps a) ≡ true
    → (elem b (g.deps a) ≡ true) ⊎ ((a ≡ j) × (b ≡ d))
link_edge j d a b g h = elim (Bool-cases (a == j)) [
  | inl same ↦ elim (elem-append_one b d (g.deps j) (rw same at h)) [
    | inl i ↦ inl (subst (λ c. elem b (g.deps c) ≡ true) (sym ((==_iff a j).0 same)) i)
    | inr e ↦ inr ((==_iff a j).0 same, e)
  ]
  | inr other ↦ inl (rw other at h)
]

module _ (rank : ℕ → ℕ) where
  -- The jobs of negative priority whose dependencies have lower ones.
  pub record IsPrioritized (g : Graph) : Type 0 where
    pub negative : IsNegative rank g
    pub descending : IsDescending rank g
    pub edges : (a b : ℕ) → elem b (g.deps a) ≡ true → urgency g a < urgency g b

  new_jobs-IsPrioritized : (mode : ℕ → Mode) → IsPrioritized (new_jobs mode)
  unfolding IsNegative IsDescending
  new_jobs-IsPrioritized mode = record {
    negative = λ a. omega arith;
    descending = λ a b h. ground arith;
    edges = λ a b h. ground arith;
  }

  link-IsDescending :
      (j d : ℕ) (g : Graph) → rank d < rank j → IsDescending rank g → IsDescending rank (link j d g)
  unfolding IsDescending
  link-IsDescending j d g l acyclic a b h = elim (link_edge j d a b g h) [
    | inl old ↦ acyclic a b old
    | inr new ↦ omega (arith, l, ap rank new.0, ap rank new.1)
  ]

  add_dependency-IsPrioritized :
      (bound j d : ℕ) (g : Graph)
      → rank d < rank j
      → rank d < bound
      → IsPrioritized g
      → IsPrioritized (add_dependency bound j (some d) g)
  unfolding add_dependency IsNegative IsDescending
  add_dependency-IsPrioritized bound j d g l fits p =
      let linked = link j d g in
      let acyclic = link-IsDescending j d g l p.descending in
      let u =
        increase_by rank (g.priority j) bound d linked (p.negative j) fits acyclic p.negative in
      let old =
        λ (a b : ℕ) (h : elem b ((increase_priority bound d (g.priority j) linked).deps a) ≡ true).
          subst (λ q. elem b (q a) ≡ true) u.0.same h in
      record {
        negative = λ a. omega (arith, p.negative a, u.0.grows a);
        descending = λ a b h. acyclic a b (old a b h);
        edges = λ a b h. elim (link_edge j d a b g (old a b h)) [
          | inl before ↦ omega (arith, p.edges a b before, u.0.edges a b (old a b h))
          | inr new ↦
              let final = increase_priority bound d (g.priority j) linked in
              subst (λ c. urgency final c < urgency final b) (sym new.0)
                (subst (λ c. urgency final j < urgency final c) (sym new.1)
                  (omega (arith, u.1, u.0.above j (omega arith), p.negative d)))
        ];
      }

  add_dependencies-IsPrioritized :
      (bound : ℕ) (es : List (ℕ × ℕ)) (g : Graph)
      → All (λ e. (rank e.1 < rank e.0) × (rank e.1 < bound)) es
      → IsPrioritized g
      → IsPrioritized (add_dependencies bound es g)
  add_dependencies-IsPrioritized bound [] g fits p = p
  add_dependencies-IsPrioritized bound ((j, d) ∷ es) g fits p =
      add_dependencies-IsPrioritized bound es (add_dependency bound j (some d) g) fits.1
        (add_dependency-IsPrioritized bound j d g fits.0.0 fits.0.1 p)

  -- A job of lower priority does not stand behind.
  not_behind :
      (g : Graph) (j d : ℕ) (js : List ℕ)
      → IsNegative rank g
      → urgency g j < urgency g d
      → All (λ y. g.priority j ≤ℤ g.priority y) js
      → elem d js ≡ false
  unfolding IsNegative
  not_behind g j d [] n l h = refl
  not_behind g j d (k ∷ js) n l h = elim (Bool-cases (d == k)) [
    | inl same ↦
        absurd (
          omega
            (arith, ap (urgency g) ((==_iff d k).0 same), h.0, l, one_sign (g.priority k) (n k)))
    | inr other ↦ rw other (not_behind g j d js n l h.1)
  ]

  sorted-IsOrdered :
      (g : Graph) (js : List ℕ) → IsPrioritized g → IsSorted g.priority js → IsOrdered g js
  sorted-IsOrdered g [] p s = tt
  sorted-IsOrdered g (j ∷ js) p s = (
    λ d h. elim (Bool-cases (d == j)) [
      | inl same ↦ absurd (omega (arith, ap (urgency g) ((==_iff d j).0 same), p.edges j d h))
      | inr other ↦ rw other (not_behind g j d js p.negative (p.edges j d h) s.0)
    ],
    sorted-IsOrdered g js p s.1,
  )

  add_job-IsSorted :
      (g : Graph) (j : ℕ) (m : Manager)
      → m.graph ≡ g
      → IsSorted g.priority m.todo
      → ((add_job j m).graph ≡ g) × IsSorted g.priority (add_job j m).todo
  unfolding add_job
  add_job-IsSorted g j m e s =
      let queue = insort_right m.graph.priority j m.todo in
      let here = subst (λ h. IsSorted h.priority m.todo) (sym e) s in
      (elim (not m.done_grace_exit && m.thread_active)
        as (λ b.
          ((if b
              then record m { todo = queue }
              else record m { skipped = m.skipped ++ (j ∷ []) }).graph
            ≡ g)
          × IsSorted g.priority
              (if b
                then record m { todo = queue }
                else record m { skipped = m.skipped ++ (j ∷ []) }).todo) [
                  | true ↦ (
                    e,
                    subst (λ h. IsSorted h.priority queue) e
                        ((insort_right-stable m.graph.priority j m.todo here).3),
                  )
                  | false ↦ (e, s)
                ])

  add_jobs-IsSorted :
      (g : Graph) (js : List ℕ) (m : Manager)
      → m.graph ≡ g
      → IsSorted g.priority m.todo
      → IsSorted g.priority (add_jobs js m).todo
  add_jobs-IsSorted g [] m e s = s
  add_jobs-IsSorted g (j ∷ js) m e s =
      let next = add_job-IsSorted g j m e s in add_jobs-IsSorted g js (add_job j m) next.0 next.1

  -- When the dependencies of the jobs have no cycle, which a rank of the jobs witnesses, and the bound
  -- is above the ranks, then whatever jobs are handed over in whatever order, the todo queue has no
  -- dependency of a job at or behind the job itself: the priorities put it in front.
  pub add_jobs-IsOrdered :
      (mode : ℕ → Mode) (bound : ℕ) (es : List (ℕ × ℕ)) (js : List ℕ) (status : Statuses)
      (limit quit : ℕ)
      → All (λ e. (rank e.1 < rank e.0) × (rank e.1 < bound)) es
      → let g = add_dependencies bound es (new_jobs mode) in
        IsOrdered g (add_jobs js (fresh g status limit quit)).todo
  add_jobs-IsOrdered mode bound es js status limit quit fits =
      let g = add_dependencies bound es (new_jobs mode) in
      sorted-IsOrdered g (add_jobs js (fresh g status limit quit)).todo
        (add_dependencies-IsPrioritized bound es (new_jobs mode) fits (new_jobs-IsPrioritized mode))
        (add_jobs-IsSorted g js (fresh g status limit quit) refl tt)
