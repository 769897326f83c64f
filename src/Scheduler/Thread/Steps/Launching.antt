-- ===== src/Scheduler/Thread/Steps/Launching.antt =====
-- The end of a launch, in each of its three ways, is a step that keeps `Consistent`.
use rules_verilog.Base.{
  ℕ, ◌≡◌, inl, inr, refl, ◌∙◌, sym, subst, ap, Bool, List, [], ◌∷◌, ◌++◌, remove, arith, Bool-cases,
  append-nil, length-append,
}
use rules_verilog.Scheduler.State.{Manager}
use rules_verilog.Scheduler.Launch.{launched, launch_failed, launch_cancelled, is_parallel}
use rules_verilog.Scheduler.Invariant.{changed-keeps}
use rules_verilog.Scheduler.Invariant.Finishing.{
  Removes-Inv, launch_failed-Section, launch_cancelled-Section, launched-Section, launched-Removes,
}
use rules_verilog.Scheduler.Invariant.Fixed.{
  launched_active, launched_inactive, launch_failed-Fixed,
}
use rules_verilog.Scheduler.Thread.{at_loop, in_launch, launch_ends, started}
use rules_verilog.Scheduler.Thread.Places.{
  Consistent, WithinLimit, WithinLimit-same, alone, together, all-append_left,
}
use rules_verilog.Scheduler.Thread.Steps.{departs, Stepped, none_z, moved, elem_own, remove_own}

-- The limit with the launched job counted among the active ones.
within_launched :
    {m : Manager} (j : ℕ)
    → Consistent (in_launch j) m
    → WithinLimit m ((m.active ++ (j ∷ [])) ++ [])
within_launched {m} j c =
    subst (λ l. WithinLimit m l)
      (ap (λ l. m.active ++ l) c.launching_at ∙ sym (append-nil (m.active ++ (j ∷ [])))) c.within

-- ... and without it.
within_dropped : {m : Manager} (j : ℕ) → Consistent (in_launch j) m → WithinLimit m (m.active ++ [])
within_dropped {m} j c =
    drop_last m.active (subst (λ l. WithinLimit m (m.active ++ l)) c.launching_at c.within)
  where
    drop_last : (l : List ℕ) → WithinLimit m (l ++ (j ∷ [])) → WithinLimit m (l ++ [])
    drop_last l (alone h) = alone (omega (arith, length-append l (j ∷ []), length-append l []))
    drop_last l (together a h) =
        together (rw append-nil (all-append_left (λ k. is_parallel (m.graph.mode k)) l (j ∷ []) a))
          (omega (arith, length-append l (j ∷ []), length-append l []))

removed_own : {m : Manager} (j : ℕ) → Consistent (in_launch j) m → remove j m.launching ≡ []
removed_own {m} j c = ap (remove j) c.launching_at ∙ remove_own j

pub cancelled-Stepped :
    (j : ℕ) (m : Manager)
    → Consistent (in_launch j) m
    → Stepped m (record { place = at_loop; manager = launch_cancelled j m }) none_z none_z
unfolding launch_cancelled
cancelled-Stepped j m c =
    moved m.active (launch_cancelled-Section j m c.inv (elem_own j m.launching c.launching_at))
      (record {
        launching_is = removed_own j c;
        active_is = refl;
        finalizing_is = c.finalizing_at;
        limit_same = refl;
        graph_same = refl;
      })
      (within_dropped j c)

pub failed-Stepped :
    (j : ℕ) (m : Manager)
    → Consistent (in_launch j) m
    → Stepped m (record { place = at_loop; manager = launch_failed j m }) none_z none_z
failed-Stepped j m c =
    let here = elem_own j m.launching c.launching_at in
    let f = launch_failed-Fixed j m c.inv here in
    moved m.active (launch_failed-Section j m c.inv here)
      (record {
        launching_is = f.launching_is ∙ removed_own j c;
        active_is = f.active_is;
        finalizing_is = f.finalizing_is ∙ c.finalizing_at;
        limit_same = f.limit_same;
        graph_same = f.graph_same;
      })
      (within_dropped j c)

pub launched-Stepped :
    (runner_stopped : Bool) (j : ℕ) (m : Manager)
    → Consistent (in_launch j) m
    → Stepped m
        (record { place = at_loop; manager = launched runner_stopped j m })
        none_z
        (departs (launch_ends (started runner_stopped)) (in_launch j) m)
launched-Stepped runner_stopped j m c = elim (Bool-cases m.thread_active) [
  | inl on ↦
      let own = elem_own j m.launching c.launching_at in
      let s = launched-Section runner_stopped j m c.inv own on in
      let f = launched_active runner_stopped j m on in
      let st =
        moved {p = at_loop} (m.active ++ (j ∷ [])) s
          (record {
            launching_is = f.launching_is ∙ removed_own j c;
            active_is = f.active_is;
            finalizing_is = f.finalizing_is ∙ c.finalizing_at;
            limit_same = f.limit_same;
            graph_same = f.graph_same;
          })
          (within_launched j c) in
      record {
        consistent = st.consistent;
        totals = λ z. ground (arith, st.totals z);
        stable = st.stable;
        graph_same = st.graph_same;
      }
  | inr off ↦
      let own = elem_own j m.launching c.launching_at in
      let r = launched-Removes runner_stopped j m own off in
      let f = launched_inactive runner_stopped j m off in
      record {
        consistent = record {
          inv = Removes-Inv r c.inv;
          launching_at = f.launching_is ∙ removed_own j c;
          finalizing_at = f.finalizing_is ∙ c.finalizing_at;
          within =
              rw (f.active_is, f.launching_is, removed_own j c)
                (WithinLimit-same (m.active ++ []) f.limit_same f.graph_same (within_dropped j c));
        };
        totals = λ z. ground (arith, r.totals z);
        stable = λ z. changed-keeps m (launched runner_stopped j m) r.moves z;
        graph_same = r.moves.graph_same;
      }
]
