-- ===== src/Scheduler/Invariant/Hooks.antt =====
-- The invariant under the hook of a job that has ended and the count of errors behind it.
use rules_verilog.Base.{
  ℕ, ◌+◌, ◌≡◌, ◌≢◌, ◌⊎◌, inl, inr, refl, ◌∙◌, ap, Bool, true, false, none, some, List, [], ◌∷◌,
  count-remove, count-pos_of_elem, elem, remove, arith, ◌==◌, Bool-cases, ==_iff, leb,
  if◌then◌else◌,
}
use rules_verilog.Status.{Update, moved, value_error, update, JobStatus, successful}
use rules_verilog.Scheduler.State.{Manager, Statuses, assign, set_at}
use rules_verilog.Scheduler.Waiting.{mark-failed}
use rules_verilog.Scheduler.Skip.{move_children_to_skipped}
use rules_verilog.Scheduler.Launch.{graceful_exit, exit_at_quit_count}
use rules_verilog.Scheduler.Finish.{PostRun, post_run, count_error}
use rules_verilog.Scheduler.Invariant.{Inv, Moves, Moves-Inv, Moves-trans}
use rules_verilog.Scheduler.Invariant.Exits.{
  Keeps-refl, Keeps-trans, Keeps-Inv, move_children-Keeps, exit_at_quit_count-Keeps, left_at_exit,
}
use rules_verilog.Scheduler.Invariant.Promoting.{Section, Moves-Section}
use rules_verilog.Scheduler.Invariant.Finishing.{Removes}

-- An assignment that is accepted changes the status of its job only.
assign_cases :
    (j : ℕ) (s : JobStatus) (status : Statuses)
    → (assign j s status ≡ none)
      ⊎ ((after : Statuses) × (assign j s status ≡ some after)
          × ((z : ℕ) → z ≢ j → after z ≡ status z))
unfolding assign
assign_cases j s status = split (update (status j) s)
  where
    split :
        (u : Update)
        → ((elim u [ moved t ↦ some (set_at j t status) | value_error _ _ ↦ none ]) ≡ none)
          ⊎ ((after : Statuses) × ((elim u [
            | moved t ↦ some (set_at j t status)
            | value_error _ _ ↦ none
          ])
                ≡ some after)
              × ((z : ℕ) → z ≢ j → after z ≡ status z))
    split (moved t) = inr (set_at j t status, refl, λ z n. ground (arith, ==_iff z j))
    split (value_error _ _) = inl refl

-- The hook of a finished job, with its handler, changes the status of that job only.
post_run-other :
    (j : ℕ) (raises : Bool) (ss : List JobStatus) (status : Statuses) (z : ℕ)
    → z ≢ j
    → post_run j raises ss status z ≡ status z
unfolding post_run
post_run-other j true [] status z n =
    ground (arith, ap (λ f. f z) (mark-failed j status), ==_iff z j)
post_run-other j false [] status z n = refl
post_run-other j raises (s ∷ ss) status z n = elim (assign_cases j s status) [
  | inl e ↦ rw (e, post_run) (ground (arith, ap (λ f. f z) (mark-failed j status), ==_iff z j))
  | inr (after, e, other) ↦ rw (e, post_run) (post_run-other j raises ss after z n ∙ other z n)
]

-- The job leaves the queue of its phase as soon as its status changes: the order of the two is of
-- no consequence inside one section.
abbrev with_finalizing : List ℕ → Manager → Manager
with_finalizing f m = record m { finalizing = f }

if_ap :
    (h : Manager → Manager) (b : Bool) (m n : Manager)
    → (if b then h m else h n) ≡ h (if b then m else n)
if_ap h true m n = refl
if_ap h false m n = refl

graceful_exit-with_finalizing :
    (f : List ℕ) (m : Manager)
    → graceful_exit (with_finalizing f m) ≡ with_finalizing f (graceful_exit m)
unfolding graceful_exit
graceful_exit-with_finalizing f m = if_ap (with_finalizing f) m.done_grace_exit m (left_at_exit m)

exit-with_finalizing :
    (f : List ℕ) (m : Manager)
    → exit_at_quit_count (with_finalizing f m) ≡ with_finalizing f (exit_at_quit_count m)
exit-with_finalizing f m =
    rw (graceful_exit-with_finalizing f m)
      (if_ap (with_finalizing f) (leb m.quit_count m.error_count) (graceful_exit m) m)

abbrev pub bump : Manager → Manager
bump m = record m { error_count = m.error_count + 1 }

move_children-with_finalizing :
    (j : ℕ) (f : List ℕ) (m : Manager)
    → move_children_to_skipped j (with_finalizing f m)
      ≡ with_finalizing f (move_children_to_skipped j m)
unfolding move_children_to_skipped
move_children-with_finalizing j f m = refl

pub count_error-with_finalizing :
    (j : ℕ) (f : List ℕ) (m : Manager)
    → count_error j (with_finalizing f m) ≡ with_finalizing f (count_error j m)
count_error-with_finalizing j f m =
    rw
      (
        exit-with_finalizing f (bump m),
        move_children-with_finalizing j f (exit_at_quit_count (bump m)),
      )
      (if_ap (with_finalizing f) (successful (m.status j)) m
        (move_children_to_skipped j (exit_at_quit_count (bump m))))

-- A job whose status is set by its hook, and that is in no queue meanwhile.
abbrev pub hooked : PostRun → ℕ → Manager → Manager
hooked hook j m = record m {
  status = post_run j hook.raises hook.assigns m.status;
  finalizing = remove j m.finalizing;
}

pub hooked-Removes :
    (hook : PostRun) (j : ℕ) (m : Manager)
    → Inv m
    → elem j m.finalizing ≡ true
    → Removes j m (hooked hook j m)
hooked-Removes hook j m v h = record {
  moves = record {
    graph_same = refl;
    todo_le = λ z. omega arith;
    advanced_le = λ z. omega (arith, count-remove j z m.finalizing h);
    changed = λ z. elim (Bool-cases (z == j)) [
      | inl same ↦ inr (
        ground (arith, (==_iff z j).0 same, v.uncompleted z, count-pos_of_elem j m.finalizing h),
        inl (ground (arith, (==_iff z j).0 same, count-remove j z m.finalizing h, v.once z)),
      )
      | inr other ↦
          inl
            (post_run-other j hook.raises hook.assigns m.status z (λ e. ground (arith, ==_iff z j)))
    ];
  };
  totals = λ z. omega (arith, count-remove j z m.finalizing h);
}

pub bump-Moves : (m : Manager) → Moves m (bump m)
bump-Moves m = record {
  graph_same = refl;
  todo_le = λ z. omega arith;
  advanced_le = λ z. omega arith;
  changed = λ z. inl refl;
}

-- A section in which the number of errors may have risen as well.
pub count_error-Section : (j : ℕ) (m : Manager) → Inv m → Section m (count_error j m)
count_error-Section j m v = elim (Bool-cases (successful (m.status j))) [
  | inl fine ↦ rw fine (Moves-Section (Keeps-refl m).moves (λ z. refl) v)
  | inr bad ↦
      let up = bump-Moves m in
      let v1 = Moves-Inv up v.once v in
      let exit = exit_at_quit_count-Keeps (bump m) v1 in
      let children = move_children-Keeps j (exit_at_quit_count (bump m)) (Keeps-Inv exit v1) in
      let all = Keeps-trans exit children in
      rw bad (Moves-Section (Moves-trans up all.moves) all.totals v)
]

pub count_error-finalizing : (j : ℕ) (m : Manager) → (count_error j m).finalizing ≡ m.finalizing
count_error-finalizing j m =
    ap (λ (n : Manager). n.finalizing) (count_error-with_finalizing j m.finalizing m)
