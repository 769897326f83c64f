-- ===== src/Scheduler/Invariant/Exits.antt =====
-- The moves to the skipped jobs, of children and at the graceful exit, keep the invariant and lose
-- no job.
use rules_verilog.Base.{
  ℕ, ◌<◌, ◌≡◌, ◌⊎◌, inl, inr, refl, ◌∙◌, ap, subst, sym, Bool, true, false, List, [], ◌∷◌, ◌++◌,
  count, count-append, Bool-cases, ==_iff, leb, arith, if◌then◌else◌, length,
}
use rules_verilog.Status.{completed, skipped}
use rules_verilog.Scheduler.State.{Manager, Statuses}
use rules_verilog.Scheduler.Waiting.{mark-skipped}
use rules_verilog.Scheduler.Skip.{Pool, skip_children, move_children_to_skipped}
use rules_verilog.Scheduler.Skip.Conserved.{skip_children-IsSkipping}
use rules_verilog.Scheduler.Launch.{mark_uncompleted, mark_all, graceful_exit, exit_at_quit_count}
use rules_verilog.Scheduler.Invariant.{
  Inv, Inv-IsWaiting, Moves, Moves-trans, Moves-Inv, Frame, Frame-trans, total,
}

-- The manager with its waiting and skipped jobs rearranged, and the flags of an early end.
abbrev pub relocate : Manager → Statuses → List ℕ → List ℕ → List ℕ → Bool → Bool → Manager
relocate m st td rd sk ended graceful = record m {
  status = st;
  todo = td;
  ready = rd;
  skipped = sk;
  exited_prematurely = ended;
  done_grace_exit = graceful;
}

Frame-relocate :
    (m : Manager) (st : Statuses) (td rd sk : List ℕ) (ended graceful : Bool)
    → Frame m (relocate m st td rd sk ended graceful)
Frame-relocate m st td rd sk ended graceful = record {
  graph_same = refl;
  launching_same = refl;
  active_same = refl;
  finalizing_same = refl;
  done_same = refl;
  limit_same = refl;
  quit_count_same = refl;
  error_count_same = refl;
  thread_same = refl;
}

-- What a section keeps: the invariant holds after it, every job is in as many queues as before, and
-- completed jobs keep their status.
pub record Keeps (m n : Manager) : Type 0 where
  pub moves : Moves m n
  pub frame : Frame m n
  pub totals : (z : ℕ) → total z n ≡ total z m

pub move_children-Keeps : (j : ℕ) (m : Manager) → Inv m → Keeps m (move_children_to_skipped j m)
unfolding move_children_to_skipped
move_children-Keeps j m v =
    let p : Pool = record { status = m.status; todo = m.todo; skips = m.skipped } in
    let s =
      skip_children-IsSkipping m.graph (length m.todo) (m.graph.children j) p (Inv-IsWaiting m v) in
    record {
      moves = record {
        graph_same = refl;
        todo_le = s.kept;
        advanced_le = λ z. omega arith;
        changed = λ z. ground (arith, s.marks z, v.uncompleted z, v.once z);
      };
      frame =
          Frame-relocate m (skip_children m.graph (length m.todo) (m.graph.children j) p).status
            (skip_children m.graph (length m.todo) (m.graph.children j) p).todo m.ready
            (skip_children m.graph (length m.todo) (m.graph.children j) p).skips
            m.exited_prematurely m.done_grace_exit;
      totals = λ z. omega (arith, s.counts z);
    }

mark_uncompleted_cases :
    (j z : ℕ) (status : Statuses)
    → (mark_uncompleted j status z ≡ status z)
      ⊎ (z ≡ j) × (completed (status z) ≡ false) × (mark_uncompleted j status z ≡ skipped)
mark_uncompleted_cases j z status = elim (Bool-cases (completed (status j))) [
  | inl c ↦ rw c (inl refl)
  | inr u ↦ rw (u, mark-skipped j status u) (ground (arith, ==_iff z j))
]

-- Only jobs of the list are marked, and only those that were not completed.
pub mark_all_cases :
    (js : List ℕ) (z : ℕ) (status : Statuses)
    → (mark_all js status z ≡ status z)
      ⊎ (completed (status z) ≡ false) × (0 < count z js) × (mark_all js status z ≡ skipped)
mark_all_cases [] z status = inl refl
mark_all_cases (j ∷ js) z status = ground (
  arith,
  mark_uncompleted_cases j z status,
  ==_iff z j,
  mark_all_cases js z (mark_uncompleted j status),
)

pub Keeps-refl : (m : Manager) → Keeps m m
Keeps-refl m = record {
  moves = record {
    graph_same = refl;
    todo_le = λ z. omega arith;
    advanced_le = λ z. omega arith;
    changed = λ z. inl refl;
  };
  frame = Frame-relocate m m.status m.todo m.ready m.skipped m.exited_prematurely m.done_grace_exit;
  totals = λ z. refl;
}

pub Keeps-trans : {m n o : Manager} → Keeps m n → Keeps n o → Keeps m o
Keeps-trans h k = record {
  moves = Moves-trans h.moves k.moves;
  frame = Frame-trans h.frame k.frame;
  totals = λ z. k.totals z ∙ h.totals z;
}

pub Keeps-Inv : {m n : Manager} → Keeps m n → Inv m → Inv n
Keeps-Inv h v = Moves-Inv h.moves (λ z. omega (arith, h.totals z, v.once z)) v

-- All jobs of the two waiting queues are marked and join the skipped jobs.
abbrev pub empty_queues : Manager → Manager
empty_queues m = record m {
  status = mark_all (m.todo ++ m.ready) m.status;
  skipped = (m.skipped ++ m.todo) ++ m.ready;
  todo = [];
  ready = [];
}

abbrev pub left_at_exit : Manager → Manager
left_at_exit m =
    relocate m (mark_all (m.todo ++ m.ready) m.status) [] [] ((m.skipped ++ m.todo) ++ m.ready) true
      true

pub empty_queues-Keeps : (m : Manager) → Inv m → Keeps m (empty_queues m)
empty_queues-Keeps m v = record {
  moves = record {
    graph_same = refl;
    todo_le = λ z. omega arith;
    advanced_le = λ z. omega arith;
    changed = λ z. ground (
      arith,
      mark_all_cases (m.todo ++ m.ready) z m.status,
      v.once z,
      count-append z m.todo m.ready,
    );
  };
  frame =
      Frame-relocate m (mark_all (m.todo ++ m.ready) m.status) [] []
        ((m.skipped ++ m.todo) ++ m.ready) m.exited_prematurely m.done_grace_exit;
  totals = λ z.
      omega (arith, count-append z m.skipped m.todo, count-append z (m.skipped ++ m.todo) m.ready);
}

graceful_exit_again : (m : Manager) → m.done_grace_exit ≡ true → graceful_exit m ≡ m
unfolding graceful_exit
graceful_exit_again m e = ap (λ b. if b then m else left_at_exit m) e

graceful_exit_first : (m : Manager) → m.done_grace_exit ≡ false → graceful_exit m ≡ left_at_exit m
unfolding graceful_exit
graceful_exit_first m e = ap (λ b. if b then m else left_at_exit m) e

left_at_exit-Keeps : (m : Manager) → Inv m → Keeps m (left_at_exit m)
left_at_exit-Keeps m v =
    let k = empty_queues-Keeps m v in
    record {
      moves = record {
        graph_same = refl;
        todo_le = k.moves.todo_le;
        advanced_le = k.moves.advanced_le;
        changed = k.moves.changed;
      };
      frame =
          Frame-relocate m (mark_all (m.todo ++ m.ready) m.status) [] []
            ((m.skipped ++ m.todo) ++ m.ready) true true;
      totals = k.totals;
    }

pub graceful_exit-Keeps : (m : Manager) → Inv m → Keeps m (graceful_exit m)
graceful_exit-Keeps m v = elim (Bool-cases m.done_grace_exit) [
  | inl before ↦ subst (Keeps m) (sym (graceful_exit_again m before)) (Keeps-refl m)
  | inr first ↦ subst (Keeps m) (sym (graceful_exit_first m first)) (left_at_exit-Keeps m v)
]

pub exit_at_quit_count-Keeps : (m : Manager) → Inv m → Keeps m (exit_at_quit_count m)
exit_at_quit_count-Keeps m v = elim (Bool-cases (leb m.quit_count m.error_count)) [
  | inl reached ↦ rw reached (graceful_exit-Keeps m v)
  | inr below ↦ rw below (Keeps-refl m)
]
