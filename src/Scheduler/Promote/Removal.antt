-- ===== src/Scheduler/Promote/Removal.antt =====
-- Popping the recorded indices from the last to the first leaves exactly the jobs that the loop
-- did not advance.
use rules_verilog.Base.{
  ℕ, suc, ◌≡◌, refl, ap, ◌∙◌, false, some, List, [], ◌∷◌, ◌++◌, length, length-append, arith, ◌⊎◌,
  inl, inr, ==_refl,
}
use rules_verilog.Status.{skipped, completed}
use rules_verilog.Queue.{insort_right}
use rules_verilog.Scheduler.State.{Statuses, assign, set_at, Graph}
use rules_verilog.Scheduler.Waiting.{
  IsWaiting, IsWaiting-tail, IsWaiting-marked, assign_uncompleted,
}
use rules_verilog.Scheduler.Promote.{
  Verdict, wait, promote, reject, judge, Sweep, Swept, finished, sweep, pop, pop_all,
}

-- A pass over the todo queue, job by job: the loop without the indices. The derivation says what
-- becomes of each job, in the order of the queue.
pub data Pass (g : Graph)
    : List ℕ → Statuses → List ℕ → List ℕ → Statuses → List ℕ → List ℕ → List ℕ → Type 0 where
  stop : {st : Statuses} {rd sk : List ℕ} → Pass g [] st rd sk st rd sk []
  stay :
      {j : ℕ} {js rd sk rd' sk' kept : List ℕ} {st st' : Statuses}
      → judge st (g.deps j) ≡ wait
      → Pass g js st rd sk st' rd' sk' kept
      → Pass g (j ∷ js) st rd sk st' rd' sk' (j ∷ kept)
  go :
      {j : ℕ} {js rd sk rd' sk' kept : List ℕ} {st st' : Statuses}
      → judge st (g.deps j) ≡ promote
      → Pass g js st (insort_right g.priority j rd) sk st' rd' sk' kept
      → Pass g (j ∷ js) st rd sk st' rd' sk' kept
  drop_out :
      {j : ℕ} {js rd sk rd' sk' kept : List ℕ} {st st' mid : Statuses}
      → judge st (g.deps j) ≡ reject
      → assign j skipped st ≡ some mid
      → Pass g js mid rd (sk ++ (j ∷ [])) st' rd' sk' kept
      → Pass g (j ∷ js) st rd sk st' rd' sk' kept

pop_append : (pre js : List ℕ) (j : ℕ) → pop (length pre) (pre ++ (j ∷ js)) ≡ pre ++ js
pop_append [] js j = refl
pop_append (x ∷ pre) js j = ap (λ l. x ∷ l) (pop_append pre js j)

snoc_append : (pre js : List ℕ) (j : ℕ) → (pre ++ (j ∷ [])) ++ js ≡ pre ++ (j ∷ js)
snoc_append [] js j = refl
snoc_append (x ∷ pre) js j = ap (λ l. x ∷ l) (snoc_append pre js j)

length-snoc : (pre : List ℕ) (j : ℕ) → length (pre ++ (j ∷ [])) ≡ suc (length pre)
length-snoc pre j = omega (arith, length-append pre (j ∷ []))

-- What the loop gives: it ends without an exception, it is a pass, and the pops after it leave what
-- the pass keeps.
pub record Done (g : Graph) (pre js : List ℕ) (s : Sweep) (r : Swept) : Type 0 where
  pub final : Sweep
  pub kept : List ℕ
  pub ends : r ≡ finished final
  pub pass : Pass g js s.status s.ready s.skips final.status final.ready final.skips kept
  pub popped : pop_all final.advanced (pre ++ js) ≡ pop_all s.advanced (pre ++ kept)

Verdict-cases : (v : Verdict) → (v ≡ wait) ⊎ ((v ≡ promote) ⊎ (v ≡ reject))
Verdict-cases wait = inl refl
Verdict-cases promote = inr (inl refl)
Verdict-cases reject = inr (inr refl)

module _ (g : Graph) (i j : ℕ) (js : List ℕ) (s : Sweep) where
  abbrev promote_one : Sweep
  promote_one = record s { ready = insort_right g.priority j s.ready; advanced = i ∷ s.advanced }

  abbrev reject_one : Sweep
  reject_one = record s {
    status = set_at j skipped s.status;
    advanced = i ∷ s.advanced;
    skips = s.skips ++ (j ∷ []);
  }

  sweep_wait : judge s.status (g.deps j) ≡ wait → sweep g i (j ∷ js) s ≡ sweep g (suc i) js s
  unfolding sweep
  sweep_wait h = rw (h, sweep)

  sweep_promote :
      judge s.status (g.deps j) ≡ promote → sweep g i (j ∷ js) s ≡ sweep g (suc i) js promote_one
  unfolding sweep
  sweep_promote h = rw (h, sweep)

  sweep_reject :
      judge s.status (g.deps j) ≡ reject
      → completed (s.status j) ≡ false
      → sweep g i (j ∷ js) s ≡ sweep g (suc i) js reject_one
  unfolding sweep
  sweep_reject h c = rw (h, sweep, assign_uncompleted j s.status c)

  -- The index of a job that advanced is popped last of those at or behind it.
  popped_one :
      (pre kept is : List ℕ)
      → length pre ≡ i
      → pop_all is ((pre ++ (j ∷ [])) ++ js) ≡ pop_all (i ∷ s.advanced) ((pre ++ (j ∷ [])) ++ kept)
      → pop_all is (pre ++ (j ∷ js)) ≡ pop_all s.advanced (pre ++ kept)
  popped_one pre kept is e h =
      rw (← snoc_append pre js j, h, snoc_append pre kept j, ← e, pop_append pre kept j)

-- From a todo queue whose jobs wait, the loop ends without an exception.
pub sweep-Done :
    (g : Graph) (i : ℕ) (pre js : List ℕ) (s : Sweep)
    → length pre ≡ i
    → IsWaiting s.status js
    → Done g pre js s (sweep g i js s)
sweep-Done g i pre [] s e w =
    unfold sweep in record { final = s; kept = []; ends = refl; pass = stop; popped = refl }
sweep-Done g i pre (j ∷ js) s e w =
    let e' : length (pre ++ (j ∷ [])) ≡ suc i = omega (arith, length-snoc pre j) in
    elim (Verdict-cases (judge s.status (g.deps j))) [
      | inl h ↦
          let d = sweep-Done g (suc i) (pre ++ (j ∷ [])) js s e' (IsWaiting-tail w) in
          record {
            final = d.final;
            kept = j ∷ d.kept;
            ends = sweep_wait g i j js s h ∙ d.ends;
            pass = stay h d.pass;
            popped = rw (← snoc_append pre js j, d.popped, snoc_append pre d.kept j);
          }
      | inr (inl h) ↦
          let d =
            sweep-Done g (suc i) (pre ++ (j ∷ [])) js (promote_one g i j js s) e'
              (IsWaiting-tail w) in
          record {
            final = d.final;
            kept = d.kept;
            ends = sweep_promote g i j js s h ∙ d.ends;
            pass = go h d.pass;
            popped = popped_one g i j js s pre d.kept d.final.advanced e d.popped;
          }
      | inr (inr h) ↦
          let c = w.uncompleted j (ground (arith, ==_refl j)) in
          let d =
            sweep-Done g (suc i) (pre ++ (j ∷ [])) js (reject_one g i j js s) e'
              (IsWaiting-marked w) in
          record {
            final = d.final;
            kept = d.kept;
            ends = sweep_reject g i j js s h c ∙ d.ends;
            pass = drop_out h (assign_uncompleted j s.status c) d.pass;
            popped = popped_one g i j js s pre d.kept d.final.advanced e d.popped;
          }
    ]
