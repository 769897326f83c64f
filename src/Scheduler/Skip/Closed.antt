-- ===== src/Scheduler/Skip/Closed.antt =====
-- Exactly the jobs below the failed job are skipped, and the bound on the recursion is enough.
use rules_verilog.Base.{
  ℕ, zero, suc, ◌≤◌, ◌<◌, ◌≡◌, ◌⊎◌, inl, inr, refl, true, List, [], ◌∷◌, elem, count, ◌==◌,
  Bool-cases, ==_iff, subst, sym, count-remove, elem_of_count-pos, count-pos_of_elem, length,
  length-remove, arith, ltb, ltb→lt,
}
use mathlib.Core.List.{Sublistᴰ}
use rules_verilog.Status.{skipped}
use rules_verilog.Scheduler.State.{Manager, Graph}
use rules_verilog.Scheduler.Waiting.{IsWaiting}
use rules_verilog.Scheduler.Skip.{Pool, skip_children, move_children_to_skipped}
use rules_verilog.Scheduler.Skip.Conserved.{
  IsSkipping-IsWaiting, skip_children_absent, skip_children_present, skip_one, skip_one-IsSkipping,
  skip_children-IsSkipping,
}

-- The job hangs below one of `cs` by a chain of children that all wait in the todo queue.
pub data HangsBelow (g : Graph) (todo cs : List ℕ) : ℕ → Type 0 where
  child : (c : ℕ) → elem c cs ≡ true → 0 < count c todo → HangsBelow g todo cs c
  further :
      {b : ℕ} (c : ℕ)
      → HangsBelow g todo cs b
      → elem c (g.children b) ≡ true
      → 0 < count c todo
      → HangsBelow g todo cs c

module _ (g : Graph) where
  HangsBelow-head :
      {todo cs : List ℕ} {z : ℕ} (c : ℕ) → HangsBelow g todo cs z → HangsBelow g todo (c ∷ cs) z
  HangsBelow-head c (child z h k) = child z (ground arith) k
  HangsBelow-head c (further z r h k) = further z (HangsBelow-head c r) h k

  HangsBelow-under :
      (c : ℕ) {todo cs small : List ℕ} {z : ℕ}
      → ((y : ℕ) → count y small ≤ count y todo)
      → elem c cs ≡ true
      → 0 < count c todo
      → HangsBelow g small (g.children c) z
      → HangsBelow g todo cs z
  HangsBelow-under c le h k (child z e l) = further z (child c h k) e (omega (arith, le z))
  HangsBelow-under c le h k (further z r e l) =
      further z (HangsBelow-under c le h k r) e (omega (arith, le z))

  HangsBelow-mono :
      {todo cs small : List ℕ} {z : ℕ}
      → ((y : ℕ) → count y small ≤ count y todo)
      → HangsBelow g small cs z
      → HangsBelow g todo cs z
  HangsBelow-mono le (child z e l) = child z e (omega (arith, le z))
  HangsBelow-mono le (further z r e l) = further z (HangsBelow-mono le r) e (omega (arith, le z))

  -- What left the todo queue hangs below the failed job.
  skip_children_sound :
      (bound : ℕ) (cs : List ℕ) (p : Pool) (z : ℕ)
      → IsWaiting p.status p.todo
      → 0 < count z p.todo
      → count z (skip_children g bound cs p).todo ≡ 0
      → HangsBelow g p.todo cs z
  skip_children_sound zero [] p z w h e = unfold skip_children in absurd (omega arith)
  skip_children_sound (suc bound) [] p z w h e = unfold skip_children in absurd (omega arith)
  skip_children_sound zero (c ∷ cs) p z w h e = unfold skip_children in absurd (omega arith)
  skip_children_sound (suc bound) (c ∷ cs) p z w h e = elim (Bool-cases (elem c p.todo)) [
    | inr absent ↦ HangsBelow-head c (
        skip_children_sound (suc bound) cs p z w h
          (rw (skip_children_absent g bound c cs p absent) at e))
    | inl present ↦
        let one = skip_one-IsSkipping c p w present in
        let w1 = IsSkipping-IsWaiting one w in
        let below = skip_children-IsSkipping g bound (g.children c) (skip_one c p) w1 in
        let mid = skip_children g bound (g.children c) (skip_one c p) in
        let e' : count z (skip_children g (suc bound) cs mid).todo ≡ 0 =
          rw (skip_children_present g bound c cs p w present) at e in
        let c_in = count-pos_of_elem c p.todo present in
        elim (Bool-cases (ltb 0 (count z mid.todo))) [
          | inl later ↦ HangsBelow-head c (
              HangsBelow-mono (λ y. omega (arith, one.kept y, below.kept y))
                (skip_children_sound (suc bound) cs mid z (IsSkipping-IsWaiting below w1)
                  (ltb→lt 0 (count z mid.todo) later) e'))
          | inr gone ↦ elim (Bool-cases (z == c)) [
            | inl same ↦
                subst (HangsBelow g p.todo (c ∷ cs)) (sym ((==_iff z c).0 same))
                  (child c (ground (arith, ==_iff c c)) c_in)
            | inr other ↦ HangsBelow-under c one.kept (ground (arith, ==_iff c c)) c_in (
                skip_children_sound bound (g.children c) (skip_one c p) z w1
                  (ground (arith, count-remove c z p.todo present)) (ground arith))
          ]
        ]
  ]

  -- With a bound of at least the length of the todo queue no child is left behind.
  record IsCut (cs : List ℕ) (p q : Pool) : Type 0 where
    children : (c : ℕ) → elem c cs ≡ true → count c q.todo ≡ 0
    below :
        (z c : ℕ)
        → 0 < count z p.todo
        → count z q.todo ≡ 0
        → elem c (g.children z) ≡ true
        → count c q.todo ≡ 0

  count-zero_of_empty : (p : Pool) (z : ℕ) → length p.todo ≤ 0 → count z p.todo ≡ 0
  count-zero_of_empty p z h = go p.todo h
    where
      go : (l : List ℕ) → length l ≤ 0 → count z l ≡ 0
      go [] h = refl
      go (y ∷ l) h = absurd (omega arith)

  skip_children-IsCut :
      (bound : ℕ) (cs : List ℕ) (p : Pool)
      → IsWaiting p.status p.todo
      → length p.todo ≤ bound
      → IsCut cs p (skip_children g bound cs p)
  skip_children-IsCut zero cs p w le = record {
    children = λ c e.
        omega (arith, (skip_children-IsSkipping g zero cs p w).kept c, count-zero_of_empty p c le);
    below = λ z c h gone e.
        omega (arith, (skip_children-IsSkipping g zero cs p w).kept c, count-zero_of_empty p c le);
  }
  skip_children-IsCut (suc bound) [] p w le =
      unfold skip_children in
      record {
        children = λ c e. absurd (ground arith);
        below = λ z c h gone e. absurd (omega arith);
      }
  skip_children-IsCut (suc bound) (c ∷ cs) p w le = elim (Bool-cases (elem c p.todo)) [
    | inr absent ↦
        let cut = skip_children-IsCut (suc bound) cs p w le in
        let s = skip_children-IsSkipping g (suc bound) cs p w in
        rw (skip_children_absent g bound c cs p absent) (record {
          children = λ d e.
              ground (arith, s.kept d, cut.children d, elem_of_count-pos d p.todo, ==_iff d c);
          below = cut.below;
        })
    | inl present ↦
        let one = skip_one-IsSkipping c p w present in
        let w1 = IsSkipping-IsWaiting one w in
        let below = skip_children-IsSkipping g bound (g.children c) (skip_one c p) w1 in
        let mid = skip_children g bound (g.children c) (skip_one c p) in
        let w2 = IsSkipping-IsWaiting below w1 in
        let inner =
          skip_children-IsCut bound (g.children c) (skip_one c p) w1
            (omega (arith, length-remove c p.todo present)) in
        let outer =
          skip_children-IsCut (suc bound) cs mid w2 (omega (arith, one.shorter, below.shorter)) in
        let s = skip_children-IsSkipping g (suc bound) cs mid w2 in
        rw (skip_children_present g bound c cs p w present) (record {
          children = λ d e. ground (
            arith,
            ==_iff d c,
            count-remove c d p.todo present,
            w.once d,
            below.kept d,
            s.kept d,
            outer.children d,
          );
          below = λ z d h gone e. elim (Bool-cases (ltb 0 (count z mid.todo))) [
            | inl later ↦ outer.below z d (ltb→lt 0 (count z mid.todo) later) gone e
            | inr before ↦
                let at_mid : count d mid.todo ≡ 0 = elim (Bool-cases (z == c)) [
                  | inl same ↦
                      inner.children d
                        (subst (λ y. elem d (g.children y) ≡ true) ((==_iff z c).0 same) e)
                  | inr other ↦
                      inner.below z d (ground (arith, count-remove c z p.todo present))
                        (ground arith) e
                ] in
                omega (arith, s.kept d, at_mid)
          ];
        })
  ]

  -- A job that hangs below the failed one is gone from the todo queue.
  IsCut-complete :
      {cs : List ℕ} {p q : Pool} {z : ℕ}
      → IsCut cs p q
      → HangsBelow g p.todo cs z
      → (0 < count z p.todo) × (count z q.todo ≡ 0)
  IsCut-complete cut (child z h k) = (k, cut.children z h)
  IsCut-complete cut (further z r h k) =
      let above = IsCut-complete cut r in (k, cut.below _ z above.0 above.1 h)

-- Of the jobs that wait in the todo queue, those that hang below job `j` by a chain of waiting
-- children leave the queue, are marked as skipped and join the skipped jobs, and all others stay in
-- the queue, in the order they had, and keep their status.
pub move_children_to_skipped_exact :
    (j z : ℕ) (m : Manager)
    → IsWaiting m.status m.todo
    → 0 < count z m.todo
    → Sublistᴰ (move_children_to_skipped j m).todo m.todo
      × ((HangsBelow m.graph m.todo (m.graph.children j) z
            × (count z (move_children_to_skipped j m).todo ≡ 0)
            × (count z (move_children_to_skipped j m).skipped ≡ suc (count z m.skipped))
            × ((move_children_to_skipped j m).status z ≡ skipped))
          ⊎ ((¬ HangsBelow m.graph m.todo (m.graph.children j) z)
              × (count z (move_children_to_skipped j m).todo ≡ 1)
              × (count z (move_children_to_skipped j m).skipped ≡ count z m.skipped)
              × ((move_children_to_skipped j m).status z ≡ m.status z)))
unfolding move_children_to_skipped
move_children_to_skipped_exact j z m w h =
    let p : Pool = record { status = m.status; todo = m.todo; skips = m.skipped } in
    let cs = m.graph.children j in
    let q = skip_children m.graph (length m.todo) cs p in
    let s = skip_children-IsSkipping m.graph (length m.todo) cs p w in
    (
      s.order,
      elim (Bool-cases (ltb 0 (count z q.todo))) [
        | inr gone ↦
            let none_left : count z q.todo ≡ 0 = ground arith in
            inl (
              skip_children_sound m.graph (length m.todo) cs p z w h none_left,
              none_left,
              ground (arith, s.counts z, w.once z),
              ground (arith, s.marks z),
            )
        | inl stays ↦ inr (
          (λ r. absurd (
              omega (
                arith,
                ltb→lt 0 (count z q.todo) stays,
                (IsCut-complete m.graph
                    (skip_children-IsCut m.graph (length m.todo) cs p w (omega arith)) r).1,
              ))),
          ground (arith, s.kept z, w.once z),
          ground (arith, s.counts z, s.kept z, w.once z),
          ground (arith, s.marks z),
        )
      ],
    )
