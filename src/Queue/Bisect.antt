-- ===== src/Queue/Bisect.antt =====
-- The bisection finds the place behind all jobs of the same or an earlier priority, so the queue
-- stays in priority order and jobs of one priority stay in the order of arrival.
use rules_verilog.Base.{
  ℕ, zero, suc, ◌+◌, ◌/◌, ◌≤◌, ◌<◌, ◌≡◌, inl, inr, refl, some, List, [], ◌∷◌, ◌++◌, length,
  Bool-cases, take, drop, get_elem?, ltb, All, arith, subst,
}
use rules_verilog.Base.Int.{ℤ, ◌≤ℤ◌, ◌<ℤ◌}
use rules_verilog.Queue.{precedes, bisect_right, insert_at, insort_right}

module _ (key : ℕ → ℤ) where
  abbrev pub NotAfter : ℕ → ℕ → Type 0
  NotAfter x y = key y ≤ℤ key x

  abbrev pub After : ℕ → ℕ → Type 0
  After x y = key x <ℤ key y

  -- Each job's priority is at most that of every job behind it.
  abbrev pub IsSorted : List ℕ → Type 0
  IsSorted [] = Unit
  IsSorted (x ∷ xs) = All (λ y. key x ≤ℤ key y) xs × IsSorted xs

  All-get_elem? :
      (P : ℕ → Type 0) (l : List ℕ) (i : ℕ) {y : ℕ} → All P l → get_elem? l i ≡ some y → P y
  All-get_elem? P [] i h e = absurd (ground arith)
  All-get_elem? P (x ∷ l) zero h e = subst P (ground arith) h.0
  All-get_elem? P (x ∷ l) (suc i) h e = All-get_elem? P l i h.1 e

  All-mono : (P Q : ℕ → Type 0) (l : List ℕ) → ((y : ℕ) → P y → Q y) → All P l → All Q l
  All-mono P Q [] f h = tt
  All-mono P Q (x ∷ l) f h = (f x h.0, All-mono P Q l f h.1)

  -- What lies before an element that is not after `x` is not after `x` either.
  take-NotAfter :
      (x : ℕ) (l : List ℕ) (i : ℕ) {y : ℕ}
      → IsSorted l
      → get_elem? l i ≡ some y
      → NotAfter x y
      → All (NotAfter x) (take (suc i) l)
  take-NotAfter x [] i s e h = tt
  take-NotAfter x (z ∷ l) zero {y} s e h = (subst (NotAfter x) (ground arith) h, tt)
  take-NotAfter x (z ∷ l) (suc i) {y} s e h =
      let below = All-get_elem? (λ w. key z ≤ℤ key w) l i s.0 e in
      (omega arith, take-NotAfter x l i s.1 e h)

  drop-After :
      (x : ℕ) (l : List ℕ) (i : ℕ) {y : ℕ}
      → IsSorted l
      → get_elem? l i ≡ some y
      → After x y
      → All (After x) (drop i l)
  drop-After x [] i s e h = ground arith
  drop-After x (z ∷ l) zero {y} s e h =
      let first : After x z = subst (After x) (ground arith) h in
      (first, All-mono (λ w. key z ≤ℤ key w) (After x) l (λ w k. omega arith) s.0)
  drop-After x (z ∷ l) (suc i) s e h = drop-After x l i s.1 e h

  get_elem?_in_range : (l : List ℕ) (i : ℕ) → i < length l → (y : ℕ) × (get_elem? l i ≡ some y)
  get_elem?_in_range [] i h = elim h [ ]
  get_elem?_in_range (x ∷ l) zero h = (x, refl)
  get_elem?_in_range (x ∷ l) (suc i) h = get_elem?_in_range l i (omega arith)

  -- The place that `insort_right` has to find: behind all that is not after `x`.
  pub record Splits (x : ℕ) (l : List ℕ) (i : ℕ) : Type 0 where
    pub left : All (NotAfter x) (take i l)
    pub right : All (After x) (drop i l)

  module _ (x : ℕ) (l : List ℕ) (s : IsSorted l) where
    bisect_right-Splits :
        (bound lo hi : ℕ)
        → hi ≤ lo + bound
        → lo ≤ hi
        → hi ≤ length l
        → All (NotAfter x) (take lo l)
        → All (After x) (drop hi l)
        → Splits x l (bisect_right key bound x l lo hi)
    unfolding bisect_right
    bisect_right-Splits zero lo hi b o r left right =
        let e : hi ≡ lo = omega arith in
        record { left = left; right = subst (λ k. All (After x) (drop k l)) e right }
    bisect_right-Splits (suc bound) lo hi b o r left right = elim (Bool-cases (ltb lo hi)) [
      | inr stop ↦
          let e : hi ≡ lo = ground arith in
          rw stop (record { left = left; right = subst (λ k. All (After x) (drop k l)) e right })
      | inl go ↦
          let (y, e) = get_elem?_in_range l ((lo + hi) / 2) (ground arith) in
          elim (Bool-cases (precedes key x y)) [
            | inl t ↦
                rw (go, e, t)
                  (bisect_right-Splits bound lo ((lo + hi) / 2) (ground arith) (ground arith)
                    (ground arith) left (drop-After x l ((lo + hi) / 2) s e (ground arith)))
            | inr f ↦
                rw (go, e, f)
                  (bisect_right-Splits bound (suc ((lo + hi) / 2)) hi (ground arith) (ground arith)
                    r (take-NotAfter x l ((lo + hi) / 2) s e (ground arith)) right)
          ]
    ]

  drop-length : (P : ℕ → Type 0) (l : List ℕ) → All P (drop (length l) l)
  drop-length P [] = tt
  drop-length P (x ∷ l) = drop-length P l

  All-insert_at :
      (P : ℕ → Type 0) (i x : ℕ) (l : List ℕ) → All P l → P x → All P (insert_at key i x l)
  All-insert_at P zero x l h k = (k, h)
  All-insert_at P (suc i) x [] h k = (k, tt)
  All-insert_at P (suc i) x (y ∷ l) h k = (h.0, All-insert_at P i x l h.1 k)

  insert_at-IsSorted :
      (i x : ℕ) (l : List ℕ) → IsSorted l → Splits x l i → IsSorted (insert_at key i x l)
  insert_at-IsSorted zero x l s p =
      (All-mono (After x) (λ y. key x ≤ℤ key y) l (λ y h. omega arith) p.right, s)
  insert_at-IsSorted (suc i) x [] s p = (tt, tt)
  insert_at-IsSorted (suc i) x (y ∷ l) s p = (
    All-insert_at (λ z. key y ≤ℤ key z) i x l s.0 p.left.0,
    insert_at-IsSorted i x l s.1 (record { left = p.left.1; right = p.right }),
  )

  -- In a queue in priority order the job is put behind every job of an earlier or the same priority
  -- and before every job of a later one, and the new queue is in priority order.
  pub insort_right-stable :
      (x : ℕ) (l : List ℕ)
      → IsSorted l
      → (i : ℕ) × (insort_right key x l ≡ take i l ++ (x ∷ drop i l))
        × Splits x l i
        × IsSorted (insort_right key x l)
  unfolding insort_right
  insort_right-stable x l s =
      let found =
        bisect_right-Splits x l s (length l) 0 (length l) (omega arith) (omega arith) (omega arith)
          tt (drop-length (After x) l) in
      (bisect_right key (length l) x l 0 (length l), refl, found, insert_at-IsSorted _ x l s found)
