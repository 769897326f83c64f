-- ===== src/Timing/Elapsed.antt =====
-- Both loops compute the time that their intervals cover.
use rules_verilog.Base.{
  ℕ, ltb→lt, ◌+◌, ◌-◌, ◌≤◌, ◌<◌, ◌≡◌, ◌≢◌, ◌↔◌, ap, ◌∙◌, sym, refl, Bool, false, ◌||◌, Option, none,
  some, List, [], ◌∷◌, ltb, leb, leb→le, ◌⊎◌, max, arith, Bool-cases, inl, inr,
}
use rules_verilog.Timing.{
  Interval, sort, insert_sorted, collect, merge_loop, elapsed_sorted, consume_elapsed_time,
  positioned_loop, positioned_duration,
}
use rules_verilog.Timing.Measure.{
  lies_in, covered, measure, measure-cong, measure-add, measure-lies_in, measure_nothing,
  AreOrdered, AreWithin, AreOrdered-weaken, sort-AreOrdered, covered-sort,
}

-- Intervals that start behind a moment do not cover it.
covered_late :
    (bound from t : ℕ) (is : List Interval)
    → AreOrdered bound from is
    → t < from
    → covered is t ≡ false
covered_late bound from t [] h l = refl
covered_late bound from t ((s, e) ∷ is) h l = ground (arith, covered_late bound s t is)

merge_loop-measure :
    (bound cs ce elapsed : ℕ) (is : List Interval)
    → cs ≤ ce
    → ce ≤ bound
    → AreOrdered bound cs is
    → merge_loop cs ce elapsed is ≡ elapsed + measure bound (covered ((cs, ce) ∷ is))
unfolding merge_loop
merge_loop-measure bound cs ce elapsed [] a b h = omega (
  arith,
  measure-lies_in bound cs ce a,
  measure-cong bound (covered ((cs, ce) ∷ [])) (λ t. lies_in t (cs, ce)) (λ t. ground arith),
)
merge_loop-measure bound cs ce elapsed ((s, e) ∷ is) a b h = elim (Bool-cases (leb s ce)) [
  | inl joins ↦ rw (joins) (
      merge_loop-measure bound cs (max ce e) elapsed is (omega arith) (omega arith)
        (AreOrdered-weaken bound cs s is h.0 h.3)
      ∙ ap (λ k. elapsed + k)
          (measure-cong bound (covered ((cs, max ce e) ∷ is)) (covered ((cs, ce) ∷ ((s, e) ∷ is)))
            (λ t. ground (arith))))
  | inr apart ↦ rw (apart) (
      merge_loop-measure bound s e (elapsed + (ce - cs)) is h.1 h.2 h.3
      ∙ omega (
        arith,
        measure-lies_in bound cs ce a,
        measure-add bound (covered ((cs, ce) ∷ ((s, e) ∷ is))) (λ t. lies_in t (cs, ce))
            (covered ((s, e) ∷ is)) (λ t. ground (arith, covered_late bound s t is)),
      ))
]

-- The moments that the records cover: those of the records without an interval are none.
abbrev pub covered_by : List (Option Interval) → ℕ → Bool
covered_by [] t = false
covered_by (none ∷ rs) t = covered_by rs t
covered_by (some i ∷ rs) t = lies_in t i || covered_by rs t

-- No interval stops behind the bound.
abbrev pub StopBy : ℕ → List (Option Interval) → Type 0
StopBy bound [] = Unit
StopBy bound (none ∷ rs) = StopBy bound rs
StopBy bound (some (start, stop) ∷ rs) = (stop ≤ bound) × StopBy bound rs

-- No record has an interval that ends at or after its start.
abbrev pub AreIdle : List (Option Interval) → Type 0
AreIdle [] = Unit
AreIdle (none ∷ rs) = AreIdle rs
AreIdle (some (start, stop) ∷ rs) = (stop < start) × AreIdle rs

collect-AreIdle : (rs : List (Option Interval)) → (collect rs ≡ []) ↔ AreIdle rs
collect-AreIdle [] = (λ h. tt, λ h. refl)
collect-AreIdle (none ∷ rs) = collect-AreIdle rs
collect-AreIdle (some (s, e) ∷ rs) = elim (Bool-cases (leb s e)) [
  | inl fits ↦ rw fits (λ h. ground arith, λ h. absurd (omega (arith, h.0, leb→le s e fits)))
  | inr empty ↦
      rw empty (λ h. (ground arith, (collect-AreIdle rs).0 h), λ h. (collect-AreIdle rs).1 h.1)
]

collect-AreWithin :
    (bound : ℕ) (rs : List (Option Interval)) → StopBy bound rs → AreWithin bound (collect rs)
collect-AreWithin bound [] h = tt
collect-AreWithin bound (none ∷ rs) h = collect-AreWithin bound rs h
collect-AreWithin bound (some (s, e) ∷ rs) h = elim (Bool-cases (leb s e)) [
  | inl fits ↦ rw fits (leb→le s e fits, h.0, collect-AreWithin bound rs h.1)
  | inr empty ↦ rw empty (collect-AreWithin bound rs h.1)
]

covered-collect : (rs : List (Option Interval)) (t : ℕ) → covered (collect rs) t ≡ covered_by rs t
covered-collect [] t = refl
covered-collect (none ∷ rs) t = covered-collect rs t
covered-collect (some (s, e) ∷ rs) t = elim (Bool-cases (leb s e)) [
  | inl fits ↦ rw fits (ap (λ b. lies_in t (s, e) || b) (covered-collect rs t))
  | inr empty ↦ rw empty (ground (arith, covered-collect rs t))
]

elapsed_sorted-measure :
    (bound : ℕ) (is : List Interval)
    → AreOrdered bound 0 is
    → (elapsed_sorted is ≡ none)
      ⊎ (elapsed_sorted is ≡ some (measure bound (covered is))) × (is ≢ [])
elapsed_sorted-measure bound [] h = inl refl
elapsed_sorted-measure bound ((s, e) ∷ is) h =
    inr (ap some (merge_loop-measure bound s e 0 is h.1 h.2 h.3 ∙ omega arith), λ q. ground arith)

sort-empty : (is : List Interval) → elapsed_sorted (sort is) ≡ none → is ≡ []
sort-empty [] h = refl
sort-empty (i ∷ is) h = absurd (never (sort is) h)
  where
    never : (l : List Interval) → elapsed_sorted (insert_sorted i l) ≡ none → ⊥
    never [] e = ground arith
    never (k ∷ ks) e = ground arith

-- Below a bound on the ends of the intervals: the elapsed time of a set of records is the number of
-- moments that their intervals cover, each counted once, and there is none exactly if no record has
-- an interval that ends at or after its start.
pub consume_elapsed_time-measure :
    (bound : ℕ) (rs : List (Option Interval))
    → StopBy bound rs
    → (consume_elapsed_time rs ≡ none) × AreIdle rs
      ⊎ (consume_elapsed_time rs ≡ some (measure bound (covered_by rs))) × (¬ AreIdle rs)
unfolding consume_elapsed_time
consume_elapsed_time-measure bound rs h =
    let same : (t : ℕ) → covered (sort (collect rs)) t ≡ covered_by rs t =
      λ t. covered-sort (collect rs) t ∙ covered-collect rs t in
    elim (elapsed_sorted-measure bound (sort (collect rs))
      (sort-AreOrdered bound (collect rs) (collect-AreWithin bound rs h))) [
        | inl e ↦ inl (e, (collect-AreIdle rs).0 (sort-empty (collect rs) e))
        | inr e ↦ inr (
          e.0 ∙ ap some (measure-cong bound (covered (sort (collect rs))) (covered_by rs) same),
          λ idle. e.1 (ap sort ((collect-AreIdle rs).1 idle)),
        )
      ]

positioned_loop-measure :
    (bound cs ce duration : ℕ) (is : List Interval)
    → cs ≤ ce
    → ce ≤ bound
    → AreOrdered bound cs is
    → positioned_loop (some ce) duration is + (ce - cs)
      ≡ duration + measure bound (covered ((cs, ce) ∷ is))
unfolding positioned_loop
positioned_loop-measure bound cs ce duration [] a b h = omega (
  arith,
  measure-lies_in bound cs ce a,
  measure-cong bound (covered ((cs, ce) ∷ [])) (λ t. lies_in t (cs, ce)) (λ t. ground arith),
)
positioned_loop-measure bound cs ce duration ((s, e) ∷ is) a b h =
    let low = AreOrdered-weaken bound cs s is h.0 h.3 in
    let all = covered ((cs, ce) ∷ ((s, e) ∷ is)) in
    elim (Bool-cases (ltb ce s)) [
      | inl apart ↦ rw apart (
          omega (
            arith,
            positioned_loop-measure bound s e (duration + (e - s)) is h.1 h.2 h.3,
            measure-lies_in bound cs ce a,
            measure-add bound all (λ t. lies_in t (cs, ce)) (covered ((s, e) ∷ is))
                (λ t. ground (arith, covered_late bound s t is)),
          ))
      | inr meets ↦ elim (Bool-cases (ltb ce e)) [
        | inl longer ↦
            rw (meets, longer)
              (omega (
                arith,
                ltb→lt ce e longer,
                positioned_loop-measure bound cs e (duration + (e - ce)) is (ground arith) h.2 low,
                measure-cong bound (covered ((cs, e) ∷ is)) all (λ t. ground arith),
              ))
        | inr inside ↦
            rw (meets, inside)
              (omega (
                arith,
                positioned_loop-measure bound cs ce duration is a b low,
                measure-cong bound (covered ((cs, ce) ∷ is)) all (λ t. ground arith),
              ))
      ]
    ]

-- The duration of a repository's positioned events is the number of moments that they cover.
pub positioned_duration-measure :
    (bound : ℕ) (is : List Interval)
    → AreWithin bound is
    → positioned_duration is ≡ measure bound (covered is)
unfolding positioned_duration
positioned_duration-measure bound is h =
    start (sort is) (sort-AreOrdered bound is h)
    ∙ measure-cong bound (covered (sort is)) (covered is) (covered-sort is)
  where
    start :
        (l : List Interval)
        → AreOrdered bound 0 l
        → positioned_loop none 0 l ≡ measure bound (covered l)
    start [] k = sym (measure_nothing bound)
    start ((s, e) ∷ l) k =
        omega (arith, positioned_loop-measure bound s e (0 + (e - s)) l k.1 k.2 k.3)
