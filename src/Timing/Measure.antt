-- ===== src/Timing/Measure.antt =====
-- The number of moments that a set of intervals covers, as an independent measure of their time.
use rules_verilog.Base.{
  ℕ, zero, suc, ◌+◌, ◌-◌, ◌≤◌, ◌≡◌, ap, refl, Bool, false, ◌&&◌, ◌||◌, List, [], ◌∷◌, ltb, leb, min,
  any, one_if, arith, Bool-cases, inl, inr,
}
use rules_verilog.Timing.{Interval, sort, insert_sorted, tuple_before}

-- A moment lies in the interval, its end excluded.
abbrev pub lies_in : ℕ → Interval → Bool
lies_in t (start, stop) = leb start t && ltb t stop

abbrev pub covered : List Interval → ℕ → Bool
covered is t = any (lies_in t) is

-- How many moments before `n` have the property.
pub measure : ℕ → (ℕ → Bool) → ℕ
measure zero p = 0
measure (suc n) p = measure n p + one_if (p n)

pub measure-cong : (n : ℕ) (p q : ℕ → Bool) → ((t : ℕ) → p t ≡ q t) → measure n p ≡ measure n q
unfolding measure
measure-cong zero p q h = refl
measure-cong (suc n) p q h = omega (arith, measure-cong n p q h, ap one_if (h n))

pub measure-add :
    (n : ℕ) (p q r : ℕ → Bool)
    → ((t : ℕ) → one_if (p t) ≡ one_if (q t) + one_if (r t))
    → measure n p ≡ measure n q + measure n r
unfolding measure
measure-add zero p q r h = refl
measure-add (suc n) p q r h = omega (arith, measure-add n p q r h, h n)

pub measure-lies_in :
    (n start stop : ℕ)
    → start ≤ stop
    → measure n (λ t. lies_in t (start, stop)) ≡ min stop n - min start n
unfolding measure
measure-lies_in zero start stop h = omega arith
measure-lies_in (suc n) start stop h = ground (arith, measure-lies_in n start stop)

pub measure_nothing : (n : ℕ) → measure n (λ t. false) ≡ 0
unfolding measure
measure_nothing zero = refl
measure_nothing (suc n) = omega (arith, measure_nothing n)

-- The starts are in order, and no interval ends before it starts or behind `bound`.
abbrev pub AreOrdered : ℕ → ℕ → List Interval → Type 0
AreOrdered bound from [] = Unit
AreOrdered bound from ((start, stop) ∷ is) =
    (from ≤ start) × (start ≤ stop) × (stop ≤ bound) × AreOrdered bound start is

abbrev pub AreWithin : ℕ → List Interval → Type 0
AreWithin bound [] = Unit
AreWithin bound ((start, stop) ∷ is) = (start ≤ stop) × (stop ≤ bound) × AreWithin bound is

pub AreOrdered-weaken :
    (bound low from : ℕ) (is : List Interval)
    → low ≤ from
    → AreOrdered bound from is
    → AreOrdered bound low is
AreOrdered-weaken bound low from [] l h = tt
AreOrdered-weaken bound low from ((s, e) ∷ is) l h = (omega arith, h.1, h.2, h.3)

insert_sorted-AreOrdered :
    (bound from start stop : ℕ) (is : List Interval)
    → from ≤ start
    → start ≤ stop
    → stop ≤ bound
    → AreOrdered bound from is
    → AreOrdered bound from (insert_sorted (start, stop) is)
insert_sorted-AreOrdered bound from start stop [] a b c h = (a, b, c, tt)
insert_sorted-AreOrdered bound from start stop ((s, e) ∷ is) a b c h =
    elim (Bool-cases (tuple_before (s, e) (start, stop))) [
      | inl before ↦
          rw before
            (h.0, h.1, h.2, insert_sorted-AreOrdered bound s start stop is (ground arith) b c h.3)
      | inr behind ↦ rw behind (a, b, c, (ground arith, h.1, h.2, h.3))
    ]

pub sort-AreOrdered :
    (bound : ℕ) (is : List Interval) → AreWithin bound is → AreOrdered bound 0 (sort is)
sort-AreOrdered bound [] h = tt
sort-AreOrdered bound ((s, e) ∷ is) h =
    insert_sorted-AreOrdered bound 0 s e (sort is) (omega arith) h.0 h.1
      (sort-AreOrdered bound is h.2)

covered-insert_sorted :
    (i : Interval) (is : List Interval) (t : ℕ)
    → covered (insert_sorted i is) t ≡ (lies_in t i || covered is t)
covered-insert_sorted i [] t = refl
covered-insert_sorted (s, e) ((a, b) ∷ is) t = ground (arith, covered-insert_sorted (s, e) is t)

pub covered-sort : (is : List Interval) (t : ℕ) → covered (sort is) t ≡ covered is t
covered-sort [] t = refl
covered-sort (i ∷ is) t = ground (arith, covered-insert_sorted i (sort is) t, covered-sort is t)
