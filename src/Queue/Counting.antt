-- ===== src/Queue/Counting.antt =====
-- An insertion adds the job once and drops nothing, whatever the order of the list is.
use rules_verilog.Base.{
  ℕ, suc, ◌+◌, ◌≡◌, List, ◌∷◌, count, one_if, ◌==◌, take, drop, count-append, take-append-drop, ap,
  arith, length, length-append,
}
use rules_verilog.Base.Int.{ℤ}
use rules_verilog.Queue.{insort_right, bisect_right}

module _ (key : ℕ → ℤ) where
  pub count-insort_right :
      (z x : ℕ) (l : List ℕ) → count z (insort_right key x l) ≡ one_if (z == x) + count z l
  unfolding insort_right
  count-insort_right z x l =
      let i = bisect_right key (length l) x l 0 (length l) in
      omega (
        arith,
        count-append z (take i l) (x ∷ drop i l),
        count-append z (take i l) (drop i l),
        ap (count z) (take-append-drop i l),
      )

  pub length-insort_right : (x : ℕ) (l : List ℕ) → length (insort_right key x l) ≡ suc (length l)
  unfolding insort_right
  length-insort_right x l =
      let i = bisect_right key (length l) x l 0 (length l) in
      omega (
        arith,
        length-append (take i l) (x ∷ drop i l),
        length-append (take i l) (drop i l),
        ap length (take-append-drop i l),
      )
