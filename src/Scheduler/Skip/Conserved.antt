-- ===== src/Scheduler/Skip/Conserved.antt =====
-- No job is lost when children are skipped, and only jobs that waited in the todo queue change.
use rules_verilog.Base.{
  ℕ, zero, suc, ◌+◌, ◌≤◌, ◌<◌, ◌≡◌, ◌⊎◌, inl, inr, refl, true, false, List, [], ◌∷◌, ◌++◌, elem,
  remove, count, Bool-cases, ==_iff, count-remove, count-append, count-pos_of_elem, length,
  length-remove, ◌==◌, arith,
}
use mathlib.Core.List.{Sublistᴰ}
use mathlib.Core.List.Sublistᴰ
use rules_verilog.Status.{skipped}
use rules_verilog.Scheduler.State.{Graph, set_at}
use rules_verilog.Scheduler.Waiting.{IsWaiting, assign-skipped}
use rules_verilog.Scheduler.Skip.{Pool, skip_children}

remove-Sublist : (x : ℕ) (l : List ℕ) → Sublistᴰ (remove x l) l
remove-Sublist x [] = Sublistᴰ.slnil
remove-Sublist x (y ∷ ys) = elim (Bool-cases (x == y)) [
  | inl e ↦ rw e (Sublistᴰ.cons (Sublistᴰ.refl ys))
  | inr e ↦ rw e (Sublistᴰ.cons-cons refl (remove-Sublist x ys))
]

-- What a call does to the pool: the jobs that stay keep their order and status, or moves from the todo
-- queue to the skipped jobs.
pub record IsSkipping (p q : Pool) : Type 0 where
  pub counts : (z : ℕ) → count z q.todo + count z q.skips ≡ count z p.todo + count z p.skips
  pub kept : (z : ℕ) → count z q.todo ≤ count z p.todo
  pub shorter : length q.todo ≤ length p.todo
  pub order : Sublistᴰ q.todo p.todo
  pub marks :
      (z : ℕ)
      → (q.status z ≡ p.status z) × (count z q.todo ≡ count z p.todo)
        ⊎ (q.status z ≡ skipped) × (0 < count z p.todo) × (count z q.todo ≡ 0)

pub IsSkipping-refl : (p : Pool) → IsSkipping p p
IsSkipping-refl p = record {
  counts = λ z. refl;
  kept = λ z. omega arith;
  shorter = omega arith;
  order = Sublistᴰ.refl p.todo;
  marks = λ z. ground arith;
}

pub IsSkipping-trans : {p q r : Pool} → IsSkipping p q → IsSkipping q r → IsSkipping p r
IsSkipping-trans {p} {q} {r} h k = record {
  counts = λ z. omega (arith, h.counts z, k.counts z);
  kept = λ z. omega (arith, h.kept z, k.kept z);
  shorter = omega (arith, h.shorter, k.shorter);
  order = Sublistᴰ.trans k.order h.order;
  marks = λ z. marks (h.kept z) (h.marks z) (k.marks z);
}
  where
    marks :
        {z : ℕ}
        → count z q.todo ≤ count z p.todo
        → (q.status z ≡ p.status z) × (count z q.todo ≡ count z p.todo)
          ⊎ (q.status z ≡ skipped) × (0 < count z p.todo) × (count z q.todo ≡ 0)
        → (r.status z ≡ q.status z) × (count z r.todo ≡ count z q.todo)
          ⊎ (r.status z ≡ skipped) × (0 < count z q.todo) × (count z r.todo ≡ 0)
        → (r.status z ≡ p.status z) × (count z r.todo ≡ count z p.todo)
          ⊎ (r.status z ≡ skipped) × (0 < count z p.todo) × (count z r.todo ≡ 0)
    marks k a b = ground arith

pub IsSkipping-IsWaiting :
    {p q : Pool} → IsSkipping p q → IsWaiting p.status p.todo → IsWaiting q.status q.todo
IsSkipping-IsWaiting {p} {q} h w = record {
  once = λ z. omega (arith, h.kept z, w.once z);
  uncompleted = λ z l. ground (arith, h.kept z, h.marks z, w.uncompleted z);
}

abbrev pub skip_one : ℕ → Pool → Pool
skip_one c p = record {
  status = set_at c skipped p.status;
  todo = remove c p.todo;
  skips = p.skips ++ (c ∷ []);
}

pub skip_one-IsSkipping :
    (c : ℕ) (p : Pool)
    → IsWaiting p.status p.todo
    → elem c p.todo ≡ true
    → IsSkipping p (skip_one c p)
skip_one-IsSkipping c p w h = record {
  counts = λ z. omega (arith, count-remove c z p.todo h, count-append z p.skips (c ∷ []));
  kept = λ z. omega (arith, count-remove c z p.todo h);
  shorter = omega (arith, length-remove c p.todo h);
  order = remove-Sublist c p.todo;
  marks = λ z.
      ground (arith, count-remove c z p.todo h, w.once z, count-pos_of_elem c p.todo h, ==_iff z c);
}

pub skip_children_absent :
    (g : Graph) (bound c : ℕ) (cs : List ℕ) (p : Pool)
    → elem c p.todo ≡ false
    → skip_children g (suc bound) (c ∷ cs) p ≡ skip_children g (suc bound) cs p
unfolding skip_children
skip_children_absent g bound c cs p h = rw (h, skip_children)

pub skip_children_present :
    (g : Graph) (bound c : ℕ) (cs : List ℕ) (p : Pool)
    → IsWaiting p.status p.todo
    → elem c p.todo ≡ true
    → skip_children g (suc bound) (c ∷ cs) p
      ≡ skip_children g (suc bound) cs (skip_children g bound (g.children c) (skip_one c p))
unfolding skip_children
skip_children_present g bound c cs p w h =
    rw (h, skip_children, assign-skipped c p.status p.todo w h)

pub skip_children-IsSkipping :
    (g : Graph) (bound : ℕ) (cs : List ℕ) (p : Pool)
    → IsWaiting p.status p.todo
    → IsSkipping p (skip_children g bound cs p)
skip_children-IsSkipping g zero [] p w = unfold skip_children in IsSkipping-refl p
skip_children-IsSkipping g (suc bound) [] p w = unfold skip_children in IsSkipping-refl p
skip_children-IsSkipping g zero (c ∷ cs) p w = unfold skip_children in IsSkipping-refl p
skip_children-IsSkipping g (suc bound) (c ∷ cs) p w = elim (Bool-cases (elem c p.todo)) [
  | inr absent ↦
      rw (skip_children_absent g bound c cs p absent)
        (skip_children-IsSkipping g (suc bound) cs p w)
  | inl present ↦
      let one = skip_one-IsSkipping c p w present in
      let below =
        skip_children-IsSkipping g bound (g.children c) (skip_one c p)
          (IsSkipping-IsWaiting one w) in
      let both = IsSkipping-trans one below in
      rw (skip_children_present g bound c cs p w present) (
        IsSkipping-trans both (
          skip_children-IsSkipping g (suc bound) cs
            (skip_children g bound (g.children c) (skip_one c p)) (IsSkipping-IsWaiting both w)))
]
