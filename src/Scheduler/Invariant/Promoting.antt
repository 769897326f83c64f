-- ===== src/Scheduler/Invariant/Promoting.antt =====
-- `_move_todo_to_ready_locked` and `_take_ready_job_locked` keep the invariant.
use rules_verilog.Base.{
  ℕ, ◌+◌, ◌≡◌, inl, inr, refl, ◌∙◌, ap, Bool, true, false, Option, none, some, List, [], ◌∷◌, ◌++◌,
  count, count-append, arith, one_if, ◌==◌, if◌then◌else◌,
}
use rules_verilog.Status.{completed}
use rules_verilog.Scheduler.State.{Manager, Statuses}
use rules_verilog.Scheduler.Promote.{promoted, settle, Sweep, move_todo_to_ready}
use rules_verilog.Scheduler.Promote.Removal.{Pass, sweep-Done}
use rules_verilog.Scheduler.Promote.Conserved.{
  Pass-counts, Pass-marks, Pass-stable, Pass-promoted, deps_stable,
}
use rules_verilog.Scheduler.Launch.{
  Taken, job, no_job, raised, Found, found, nothing, mode_error, find_ready, take_ready_job,
  take_found, can_launch, put_back,
}
use rules_verilog.Scheduler.Invariant.{Inv, Inv-IsWaiting, Moves, Moves-Inv, total, changed-keeps}

-- What a locked section keeps: the invariant, every job in as many queues as before, and the status
-- of every completed job.
pub record Section (m n : Manager) : Type 0 where
  pub inv : Inv n
  pub totals : (z : ℕ) → total z n ≡ total z m
  pub stable : (z : ℕ) → completed (m.status z) ≡ true → n.status z ≡ m.status z
  pub graph_same : n.graph ≡ m.graph

pub Section-trans : {m n o : Manager} → Section m n → Section n o → Section m o
Section-trans h k = record {
  inv = k.inv;
  totals = λ z. k.totals z ∙ h.totals z;
  stable = λ z c. k.stable z (ap completed (h.stable z c) ∙ c) ∙ h.stable z c;
  graph_same = k.graph_same ∙ h.graph_same;
}

pub Moves-Section :
    {m n : Manager} → Moves m n → ((z : ℕ) → total z n ≡ total z m) → Inv m → Section m n
Moves-Section {m} {n} h t v = record {
  inv = Moves-Inv h (λ z. omega (arith, t z, v.once z)) v;
  totals = t;
  stable = changed-keeps m n h;
  graph_same = h.graph_same;
}

-- The manager after a pass.
abbrev pub after_pass : Manager → Statuses → List ℕ → List ℕ → List ℕ → Manager
after_pass m st rd sk kept = record m { status = st; ready = rd; skipped = sk; todo = kept }

after_pass-Section :
    (m : Manager) (st : Statuses) (rd sk kept : List ℕ)
    → Inv m
    → Pass m.graph m.todo m.status m.ready m.skipped st rd sk kept
    → Section m (after_pass m st rd sk kept)
after_pass-Section m st rd sk kept v p =
    let w = Inv-IsWaiting m v in
    record {
      inv = record {
        once = λ z. omega (arith, Pass-counts m.graph z p, v.once z);
        uncompleted = λ z h.
            ground
              (arith, Pass-counts m.graph z p, Pass-marks m.graph z w p, v.uncompleted z, v.once z);
        succeeded = λ z h. elim (Pass-promoted m.graph z w p) [
          | inr d ↦ d
          | inl same ↦
              deps_stable m.status st (m.graph.deps z) (λ y. Pass-stable m.graph y w p)
                (v.succeeded z (omega (arith, same)))
        ];
      };
      totals = λ z. omega (arith, Pass-counts m.graph z p);
      stable = λ z. Pass-stable m.graph z w p;
      graph_same = refl;
    }

-- The move always ends without an exception, and it is one pass over the todo queue.
pub record IsPassed (m : Manager) : Type 0 where
  pub status : Statuses
  pub ready : List ℕ
  pub skips : List ℕ
  pub kept : List ℕ
  pub ends : move_todo_to_ready m ≡ promoted (after_pass m status ready skips kept)
  pub pass : Pass m.graph m.todo m.status m.ready m.skipped status ready skips kept

pub move_todo_to_ready-IsPassed : (m : Manager) → Inv m → IsPassed m
unfolding move_todo_to_ready
move_todo_to_ready-IsPassed m v =
    let s : Sweep = record {
      status = m.status;
      ready = m.ready;
      skips = m.skipped;
      advanced = [];
    } in
    let d = sweep-Done m.graph 0 [] m.todo s refl (Inv-IsWaiting m v) in
    record {
      status = d.final.status;
      ready = d.final.ready;
      skips = d.final.skips;
      kept = d.kept;
      ends =
          ap (settle m) d.ends
          ∙ ap (λ t. promoted (after_pass m d.final.status d.final.ready d.final.skips t)) d.popped;
      pass = d.pass;
    }

abbrev pub passed_manager : (m : Manager) → IsPassed m → Manager
passed_manager m p = after_pass m p.status p.ready p.skips p.kept

pub passed-Section : (m : Manager) → Inv m → (p : IsPassed m) → Section m (passed_manager m p)
passed-Section m v p = after_pass-Section m p.status p.ready p.skips p.kept v p.pass

-- What the search of the ready queue finds is one of its jobs, and the job may be launched.
abbrev pub IsTakenFrom : Manager → List ℕ → Found → Type 0
IsTakenFrom m js nothing = Unit
IsTakenFrom m js mode_error = Unit
IsTakenFrom m js (found j rest) =
    (can_launch m j ≡ some true) × ((z : ℕ) → one_if (z == j) + count z rest ≡ count z js)

put_back-IsTakenFrom :
    (m : Manager) (i : ℕ) (js : List ℕ) (f : Found)
    → IsTakenFrom m js f
    → IsTakenFrom m (i ∷ js) (put_back i f)
put_back-IsTakenFrom m i js nothing h = tt
put_back-IsTakenFrom m i js mode_error h = tt
put_back-IsTakenFrom m i js (found j rest) h = (h.0, λ z. omega (arith, h.1 z))

pub find_ready-IsTakenFrom : (m : Manager) (js : List ℕ) → IsTakenFrom m js (find_ready m js)
unfolding find_ready
find_ready-IsTakenFrom m [] = tt
find_ready-IsTakenFrom m (i ∷ js) =
    split (can_launch m i) refl
      (put_back-IsTakenFrom m i js (find_ready m js) (find_ready-IsTakenFrom m js))
  where
    split :
        (o : Option Bool)
        → can_launch m i ≡ o
        → IsTakenFrom m (i ∷ js) (put_back i (find_ready m js))
        → IsTakenFrom m (i ∷ js) (elim o [
          | none ↦ mode_error
          | some true ↦ found i js
          | some false ↦ put_back i (find_ready m js)
        ])
    split none e h = tt
    split (some true) e h = (e, λ z. refl)
    split (some false) e h = h

-- The job that was taken, with the ready queue that is left.
pub data TakenCases (m : Manager) : Taken → Type 0 where
  none_taken : TakenCases m no_job
  mode_raised : TakenCases m raised
  one_taken :
      (j : ℕ) (rest : List ℕ)
      → m.paused ≡ false
      → can_launch m j ≡ some true
      → ((z : ℕ) → one_if (z == j) + count z rest ≡ count z m.ready)
      → TakenCases m (job j (record m { ready = rest; launching = m.launching ++ (j ∷ []) }))

pub take_ready_job_cases : (m : Manager) → TakenCases m (take_ready_job m)
unfolding take_ready_job
take_ready_job_cases m =
    split m.paused refl (find_ready m m.ready) (find_ready-IsTakenFrom m m.ready)
  where
    split :
        (b : Bool)
        → m.paused ≡ b
        → (f : Found) → IsTakenFrom m m.ready f
        → TakenCases m (if b then no_job else take_found m f)
    split true e f h = none_taken
    split false e nothing h = none_taken
    split false e mode_error h = mode_raised
    split false e (found j rest) h = one_taken j rest e h.0 h.1

pub taken-Section :
    (m : Manager) (j : ℕ) (rest : List ℕ)
    → Inv m
    → ((z : ℕ) → one_if (z == j) + count z rest ≡ count z m.ready)
    → Section m (record m { ready = rest; launching = m.launching ++ (j ∷ []) })
taken-Section m j rest v h =
    Moves-Section
      (record {
        graph_same = refl;
        todo_le = λ z. omega arith;
        advanced_le = λ z. omega (arith, h z, count-append z m.launching (j ∷ []));
        changed = λ z. inl refl;
      })
      (λ z. omega (arith, h z, count-append z m.launching (j ∷ []))) v
