-- ===== src/ActiveRuns/Loading/Order.antt =====
-- The order of the report.
use mathlib.Core.List.{Perm}
use mathlib.Core.List.Perm
use rules_verilog.Base.{
  ◌≡◌, refl, Bool, true, List, [], ◌∷◌, map, Bool-cases, inl, inr, arith, leb, ◌&&◌,
}
use rules_verilog.ActiveRuns.State.{State}
use rules_verilog.ActiveRuns.Loading.{
  Entry, Candidate, Machine, key_lt, epoch_of, insert, sorted, load_active_runs, select_active,
  load_state_files,
}

module _ (m : Machine) where
  insert-Perm : (c : Candidate) (ds : List Candidate) → Perm (insert m c ds) (c ∷ ds)
  insert-Perm c [] = Perm.rfl
  insert-Perm c (d ∷ ds) = elim (Bool-cases (key_lt m d.1 c.1)) [
    | inl later ↦ rw later (Perm.trans (Perm.cons d (insert-Perm c ds)) (Perm.swap c d ds))
    | inr first ↦ rw first Perm.rfl
  ]

  pub sorted-Perm : (cs : List Candidate) → Perm (sorted m cs) cs
  sorted-Perm [] = Perm.rfl
  sorted-Perm (c ∷ cs) = Perm.trans (insert-Perm c (sorted m cs)) (Perm.cons c (sorted-Perm cs))

  -- No run started before one that stands in front of it.
  unfoldable pub is_oldest_first : List State → Bool
  is_oldest_first [] = true
  is_oldest_first (a ∷ []) = true
  is_oldest_first (a ∷ (b ∷ rest)) = leb (epoch_of m a) (epoch_of m b) && is_oldest_first (b ∷ rest)

  states_of : List Candidate → List State
  states_of cs = map (λ c. c.1) cs

  insert-is_oldest_first :
      (c : Candidate) (ds : List Candidate)
      → is_oldest_first (states_of ds) ≡ true
      → is_oldest_first (states_of (insert m c ds)) ≡ true
  unfolding is_oldest_first states_of
  insert-is_oldest_first c [] h = refl
  insert-is_oldest_first c (d ∷ []) h = ground arith
  insert-is_oldest_first c (d ∷ (e ∷ ds)) h = ground (arith, insert-is_oldest_first c (e ∷ ds))

  sorted-is_oldest_first : (cs : List Candidate) → is_oldest_first (states_of (sorted m cs)) ≡ true
  unfolding is_oldest_first states_of
  sorted-is_oldest_first [] = refl
  sorted-is_oldest_first (c ∷ cs) =
      insert-is_oldest_first c (sorted m cs) (sorted-is_oldest_first cs)

  -- The runs are reported from the one that started first to the one that started last.
  pub load_active_runs-is_oldest_first :
      (entries : List Entry) → is_oldest_first (load_active_runs m entries).0 ≡ true
  unfolding load_active_runs states_of
  load_active_runs-is_oldest_first entries =
      sorted-is_oldest_first (select_active m (load_state_files entries)).active
