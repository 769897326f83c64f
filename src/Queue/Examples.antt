-- ===== src/Queue/Examples.antt =====
-- An instance for the insertion into a queue.
use rules_verilog.Base.{ℕ, ◌/◌, ◌≡◌, List, [], ◌∷◌, ◌++◌, take, drop, arith}
use rules_verilog.Base.Int.{ℤ, pos}
use rules_verilog.Queue.{insort_right}
use rules_verilog.Queue.Bisect.{IsSorted, Splits, insort_right-stable}

-- Jobs 0 to 9 have priority 0, jobs 10 to 19 have priority 1, and so on.
abbrev decade : ℕ → ℤ
decade j = pos (j / 10)

abbrev queue : List ℕ
queue = 3 ∷ 14 ∷ 12 ∷ 25 ∷ []

insort_right-stable_example :
    (i : ℕ) × (insort_right decade 17 queue ≡ take i queue ++ (17 ∷ drop i queue))
    × Splits decade 17 queue i
    × IsSorted decade (insort_right decade 17 queue)
insort_right-stable_example = insort_right-stable decade 17 queue (ground arith)
