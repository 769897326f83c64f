-- ===== src/Scheduler/Thread/Places.antt =====
-- Where the scheduler thread stands decides which jobs are being launched and finalized.
use rules_verilog.Base.{
  ℕ, ◌≤◌, ◌≡◌, refl, Bool, true, false, not, List, [], ◌∷◌, ◌++◌, remove, arith, ◌==◌,
  if◌then◌else◌, length, length-append, all, any, ltb, some, none,
}
use rules_verilog.Scheduler.State.{Manager, Mode, exclusive, parallel, unknown}
use rules_verilog.Scheduler.Launch.{can_launch, running_jobs, is_parallel}
use rules_verilog.Scheduler.Invariant.{Inv}
use mathlib.Core.Option.{some-injective}
use rules_verilog.Scheduler.Thread.{Place, in_launch, in_complete}

abbrev pub launching_of : Place → List ℕ
launching_of (in_launch j) = j ∷ []
launching_of _ = []

abbrev pub finalizing_of : Place → List ℕ
finalizing_of (in_complete j) = j ∷ []
finalizing_of _ = []

-- The running jobs keep to the limit: at most one, or at most the limit and all of them parallel.
pub data WithinLimit (m : Manager) (jobs : List ℕ) : Type 0 where
  alone : length jobs ≤ 1 → WithinLimit m jobs
  together :
      all (λ j. is_parallel (m.graph.mode j)) jobs ≡ true
      → length jobs ≤ m.active_job_limit
      → WithinLimit m jobs

pub record Consistent (p : Place) (m : Manager) : Type 0 where
  pub inv : Inv m
  pub launching_at : m.launching ≡ launching_of p
  pub finalizing_at : m.finalizing ≡ finalizing_of p
  pub within : WithinLimit m (running_jobs m)

-- The limit and the modes do not change.
pub WithinLimit-same :
    {m n : Manager} (jobs : List ℕ)
    → n.active_job_limit ≡ m.active_job_limit
    → n.graph ≡ m.graph
    → WithinLimit m jobs
    → WithinLimit n jobs
WithinLimit-same jobs l g (alone h) = alone h
WithinLimit-same jobs l g (together a h) = together (rw g a) (rw l h)

all-remove : (f : ℕ → Bool) (j : ℕ) (js : List ℕ) → all f js ≡ true → all f (remove j js) ≡ true
all-remove f j [] h = refl
all-remove f j (k ∷ js) h = ground (arith, all-remove f j js)

length-remove-le : (j : ℕ) (js : List ℕ) → length (remove j js) ≤ length js
length-remove-le j [] = omega arith
length-remove-le j (k ∷ js) = ground (arith, length-remove-le j js)

all-append :
    (f : ℕ → Bool) (js ks : List ℕ) → all f js ≡ true → all f ks ≡ true → all f (js ++ ks) ≡ true
all-append f [] ks h k = k
all-append f (j ∷ js) ks h k = ground (arith, all-append f js ks)

pub all-append_left : (f : ℕ → Bool) (js ks : List ℕ) → all f (js ++ ks) ≡ true → all f js ≡ true
all-append_left f [] ks h = refl
all-append_left f (j ∷ js) ks h = ground (arith, all-append_left f js ks)

-- Fewer active jobs, and none in launch, stay within the limit.
pub WithinLimit-remove :
    (m : Manager) (j : ℕ) (active : List ℕ)
    → WithinLimit m (active ++ [])
    → WithinLimit m (remove j active ++ [])
WithinLimit-remove m j active (alone h) = alone (
    omega (
      arith,
      length-append active [],
      length-append (remove j active) [],
      length-remove-le j active,
    ))
WithinLimit-remove m j active (together a h) =
    together
      (all-append (λ k. is_parallel (m.graph.mode k)) (remove j active) []
        (all-remove (λ k. is_parallel (m.graph.mode k)) j active
          (all-append_left (λ k. is_parallel (m.graph.mode k)) active [] a))
        refl)
      (omega (
        arith,
        length-append active [],
        length-append (remove j active) [],
        length-remove-le j active,
      ))

none_exclusive : (f : ℕ → Bool) (js : List ℕ) → any (λ j. not (f j)) js ≡ false → all f js ≡ true
none_exclusive f [] h = refl
none_exclusive f (j ∷ js) h = ground (arith, none_exclusive f js)

-- A job that may be launched leaves the running jobs within the limit.
pub can_launch-WithinLimit :
    (m : Manager) (j : ℕ) → can_launch m j ≡ some true → WithinLimit m (running_jobs m ++ (j ∷ []))
unfolding can_launch
can_launch-WithinLimit m j = split (m.graph.mode j) refl
  where
    split :
        (mode : Mode)
        → m.graph.mode j ≡ mode
        → (elim mode [
          | exclusive ↦ some (length (running_jobs m) == 0)
          | parallel ↦
              if any (λ a. not (is_parallel (m.graph.mode a))) (running_jobs m)
              then some false
              else some (ltb (length (running_jobs m)) m.active_job_limit)
          | unknown ↦ none
        ])
          ≡ some true
        → WithinLimit m (running_jobs m ++ (j ∷ []))
    split exclusive e h =
        alone (ground (arith, length-append (running_jobs m) (j ∷ []), some-injective h))
    split parallel e h =
        together
          (all-append (λ k. is_parallel (m.graph.mode k)) (running_jobs m) (j ∷ [])
            (none_exclusive (λ k. is_parallel (m.graph.mode k)) (running_jobs m) (ground arith))
            (rw e refl))
          (ground (arith, length-append (running_jobs m) (j ∷ [])))
    split unknown e h = cc
