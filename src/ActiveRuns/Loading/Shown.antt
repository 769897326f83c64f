-- ===== src/ActiveRuns/Loading/Shown.antt =====
-- Which runs are shown, and in which order.
use mathlib.Core.List.{Perm, perm_middle}
use mathlib.Core.List.Perm
use rules_verilog.Base.{
  ◌≡◌, refl, ap, sym, ◌∙◌, subst, Bool, true, false, String, Option, List, [], ◌∷◌, ◌++◌, map,
  append-nil, append_assoc, Bool-cases, inl, inr, if◌then◌else◌,
}
use rules_verilog.ActiveRuns.Loading.Live.{
  told, lsf_keeps-told, asked_jobs, live, dead, is_live-place, asked_job-place,
}
use rules_verilog.ActiveRuns.Loading.Order.{sorted-Perm}
use rules_verilog.ActiveRuns.Loading.{
  Entry, Candidate, Machine, Place, here, gone, asked, place, Sorting, put_at, sort_all, keep_if,
  keep_all, lsf_keeps, jobs, no_one, select_active, query_lsf_states, load_state_files,
  load_active_runs,
}

module _ (m : Machine) where
  near_at : Place m → Candidate → List Candidate
  near_at here c = c ∷ []
  near_at gone c = []
  near_at (asked j) c = []

  gone_at : Place m → Candidate → List String
  gone_at here c = []
  gone_at gone c = c.0 ∷ []
  gone_at (asked j) c = []

  asked_at : Place m → Candidate → List (Candidate × String)
  asked_at here c = []
  asked_at gone c = []
  asked_at (asked j) c = (c, j) ∷ []

  near : List Candidate → List Candidate
  near [] = []
  near (c ∷ cs) = near_at (place m c.1) c ++ near cs

  lost : List Candidate → List String
  lost [] = []
  lost (c ∷ cs) = gone_at (place m c.1) c ++ lost cs

  remote_of : List Candidate → List (Candidate × String)
  remote_of [] = []
  remote_of (c ∷ cs) = asked_at (place m c.1) c ++ remote_of cs

  grown : Sorting m → List Candidate → List (Candidate × String) → List String → Sorting m
  grown b ns rs gs = record {
    active = b.active ++ ns;
    remote = b.remote ++ rs;
    removed = b.removed ++ gs;
  }

  put_at-grown :
      (p : Place m) (c : Candidate) (b : Sorting m)
      → put_at m p c b ≡ grown b (near_at p c) (asked_at p c) (gone_at p c)
  unfolding grown near_at gone_at asked_at
  put_at-grown here c b = simp append-nil refl
  put_at-grown gone c b = simp append-nil refl
  put_at-grown (asked j) c b = simp append-nil refl

  grown_twice :
      (b : Sorting m) (n k : List Candidate) (r q : List (Candidate × String)) (g h : List String)
      → grown (grown b n r g) k q h ≡ grown b (n ++ k) (r ++ q) (g ++ h)
  unfolding grown
  grown_twice b n k r q g h = simp append_assoc refl

  sort_all-grown :
      (cs : List Candidate) (b : Sorting m)
      → sort_all m cs b ≡ grown b (near cs) (remote_of cs) (lost cs)
  unfolding near remote_of lost grown
  sort_all-grown [] b = simp append-nil refl
  sort_all-grown (c ∷ cs) b =
      sort_all-grown cs (put_at m (place m c.1) c b)
      ∙ ap (λ d. grown d (near cs) (remote_of cs) (lost cs)) (put_at-grown (place m c.1) c b)
      ∙ grown_twice b (near_at (place m c.1) c) (near cs) (asked_at (place m c.1) c) (remote_of cs)
          (gone_at (place m c.1) c) (lost cs)

  kept : Option (List (String × String)) → List (Candidate × String) → List Candidate
  kept states [] = []
  kept states ((c, j) ∷ rs) = (if lsf_keeps m states j then c ∷ [] else []) ++ kept states rs

  let_go : Option (List (String × String)) → List (Candidate × String) → List String
  let_go states [] = []
  let_go states ((c, j) ∷ rs) = (if lsf_keeps m states j then [] else c.0 ∷ []) ++ let_go states rs

  keep_if-grown :
      (k : Bool) (c : Candidate) (b : Sorting m)
      → keep_if m k c b ≡ grown b (if k then c ∷ [] else []) [] (if k then [] else c.0 ∷ [])
  unfolding grown
  keep_if-grown true c b = simp append-nil refl
  keep_if-grown false c b = simp append-nil refl

  keep_all-grown :
      (states : Option (List (String × String))) (rs : List (Candidate × String)) (b : Sorting m)
      → keep_all m states rs b ≡ grown b (kept states rs) [] (let_go states rs)
  unfolding grown kept let_go
  keep_all-grown states [] b = simp append-nil refl
  keep_all-grown states ((c, j) ∷ rs) b =
      let k = lsf_keeps m states j in
      keep_all-grown states rs (keep_if m k c b)
      ∙ ap (λ d. grown d (kept states rs) [] (let_go states rs)) (keep_if-grown k c b)
      ∙ grown_twice b (if k then c ∷ [] else []) (kept states rs) [] [] (if k then [] else c.0 ∷ [])
          (let_go states rs)

  jobs-asked_at :
      (p : Place m) (c : Candidate) (rs : List (Candidate × String))
      → jobs m (asked_at p c ++ rs) ≡ (elim p [ asked j ↦ j ∷ [] | _ ↦ [] ]) ++ jobs m rs
  unfolding asked_at
  jobs-asked_at here c rs = refl
  jobs-asked_at gone c rs = refl
  jobs-asked_at (asked j) c rs = refl

  jobs-remote_of : (cs : List Candidate) → jobs m (remote_of cs) ≡ asked_jobs m cs
  unfolding remote_of asked_jobs
  jobs-remote_of [] = refl
  jobs-remote_of (c ∷ cs) =
      jobs-asked_at (place m c.1) c (remote_of cs)
      ∙ ap (λ js. (elim (place m c.1) [ asked j ↦ j ∷ [] | _ ↦ [] ]) ++ js) (jobs-remote_of cs)
      ∙ ap (λ js. js ++ asked_jobs m cs) (sym (asked_job-place m c.1))

  live_one :
      (states : Option (List (String × String))) (p : Place m) (c : Candidate)
      (ns ls : List Candidate) (rs : List (Candidate × String))
      → Perm (ns ++ kept states rs) ls
      → Perm (near_at p c ++ ns ++ kept states (asked_at p c ++ rs)) (
          (if (elim p [ here ↦ true | gone ↦ false | asked j ↦ lsf_keeps m states j ])
            then c ∷ []
            else [])
          ++ ls)
  unfolding near_at asked_at kept
  live_one states here c ns ls rs h = Perm.cons c h
  live_one states gone c ns ls rs h = h
  live_one states (asked j) c ns ls rs h = elim (Bool-cases (lsf_keeps m states j)) [
    | inl keeps ↦ rw keeps (Perm.trans (perm_middle ns (kept states rs)) (Perm.cons c h))
    | inr drops ↦ rw drops h
  ]

  live-Perm :
      (states : Option (List (String × String))) (cs : List Candidate)
      → Perm (near cs ++ kept states (remote_of cs)) (live m (lsf_keeps m states) cs)
  unfolding near remote_of live kept
  live-Perm states [] = Perm.rfl
  live-Perm states (c ∷ cs) =
      subst
        (λ b.
          Perm (near (c ∷ cs) ++ kept states (remote_of (c ∷ cs)))
            ((if b then c ∷ [] else []) ++ live m (lsf_keeps m states) cs))
        (sym (is_live-place m (lsf_keeps m states) c.1))
        (live_one states (place m c.1) c (near cs) (live m (lsf_keeps m states) cs) (remote_of cs)
          (live-Perm states cs))

  dead_one :
      (states : Option (List (String × String))) (p : Place m) (c : Candidate) (ns ls : List String)
      (rs : List (Candidate × String))
      → Perm (ns ++ let_go states rs) ls
      → Perm (gone_at p c ++ ns ++ let_go states (asked_at p c ++ rs)) (
          (if (elim p [ here ↦ true | gone ↦ false | asked j ↦ lsf_keeps m states j ])
            then []
            else c.0 ∷ [])
          ++ ls)
  unfolding gone_at asked_at let_go
  dead_one states here c ns ls rs h = h
  dead_one states gone c ns ls rs h = Perm.cons c.0 h
  dead_one states (asked j) c ns ls rs h = elim (Bool-cases (lsf_keeps m states j)) [
    | inl keeps ↦ rw keeps h
    | inr drops ↦ rw drops (Perm.trans (perm_middle ns (let_go states rs)) (Perm.cons c.0 h))
  ]

  dead-Perm :
      (states : Option (List (String × String))) (cs : List Candidate)
      → Perm (lost cs ++ let_go states (remote_of cs)) (dead m (lsf_keeps m states) cs)
  unfolding lost remote_of dead let_go
  dead-Perm states [] = Perm.rfl
  dead-Perm states (c ∷ cs) =
      subst
        (λ b.
          Perm (lost (c ∷ cs) ++ let_go states (remote_of (c ∷ cs)))
            ((if b then [] else c.0 ∷ []) ++ dead m (lsf_keeps m states) cs))
        (sym (is_live-place m (lsf_keeps m states) c.1))
        (dead_one states (place m c.1) c (lost cs) (dead m (lsf_keeps m states) cs) (remote_of cs)
          (dead-Perm states cs))

  select_active-grown :
      (cs : List Candidate)
      → let states = query_lsf_states m (asked_jobs m cs) in
        select_active m cs
        ≡ grown
            (grown (no_one m) (near cs) (remote_of cs) (lost cs))
            (kept states (remote_of cs))
            []
            (let_go states (remote_of cs))
  unfolding select_active grown
  select_active-grown cs =
      let first = grown (no_one m) (near cs) (remote_of cs) (lost cs) in
      ap (λ f. keep_all m (query_lsf_states m (jobs m f.remote)) f.remote f)
        (sort_all-grown cs (no_one m))
      ∙ ap (λ js. keep_all m (query_lsf_states m js) (remote_of cs) first) (jobs-remote_of cs)
      ∙ keep_all-grown (query_lsf_states m (asked_jobs m cs)) (remote_of cs) first

  -- The report: the states that are shown are those of the active runs, each as often as it has a file,
  -- and the files that are removed are those of the other runs. A run on this host is active with its
  -- process. LSF is asked once, for the jobs of all runs on other hosts; such a run is active unless
  -- LSF answers that its job is over or does not name it, so also when LSF cannot be asked.
  pub load_active_runs-Perm :
      (entries : List Entry)
      → let cs = load_state_files entries in
        Perm (load_active_runs m entries).0 (map (λ c. c.1) (live m (told m (asked_jobs m cs)) cs))
        × Perm (load_active_runs m entries).1 (dead m (told m (asked_jobs m cs)) cs)
  unfolding load_active_runs select_active grown
  load_active_runs-Perm entries =
      let cs = load_state_files entries in
      let js = asked_jobs m cs in
      let states = query_lsf_states m js in
      let e = sym (select_active-grown cs) in
      let keeps : lsf_keeps m states ≡ told m js = λ i j. lsf_keeps-told m js j i in
      let shown =
        subst (λ b. Perm b.active (live m (lsf_keeps m states) cs)) e (live-Perm states cs) in
      let gone =
        subst (λ b. Perm b.removed (dead m (lsf_keeps m states) cs)) e (dead-Perm states cs) in
      (
        subst (λ k. Perm (load_active_runs m entries).0 (map (λ c. c.1) (live m k cs))) keeps
            (Perm.map (λ c. c.1) (Perm.trans (sorted-Perm m (select_active m cs).active) shown)),
        subst (λ k. Perm (load_active_runs m entries).1 (dead m k cs)) keeps gone,
      )
