-- ===== src/ActiveRuns/Loading.antt =====
-- lib/simmer_state.py, load_active_runs: which of the registered runs are active still.
pub mod Order
pub mod Live
pub mod Shown
use rules_verilog.Base.{
  ℕ, Bool, true, false, not, ◌&&◌, ◌||◌, String, Option, none, some, List, [], ◌∷◌, ◌++◌, map,
  if◌then◌else◌, ltb, leb, ◌==◌,
}
use rules_verilog.Results.Text.{str_eq, str_lt, same_text}
use rules_verilog.ActiveRuns.State.{State, Process, Lsf}

-- An entry of the state directory. The state is `none` when the file cannot be read, or is no JSON
-- object.
pub record Entry : Type 0 where
  pub path : String
  pub is_file : Bool
  pub is_json : Bool  -- the name ends in `.json`
  pub content : Option State

-- What `bjobs` answers: whether it failed, and the fields of each line.
pub record Answer : Type 0 where
  pub failed : Bool
  pub lines : List (List String)

abbrev pub Candidate : Type 0
Candidate = String × State

-- What the host and the operating system say.
pub record Machine : Type 0 where
  pub hostname : String
  pub process_exists : ℕ → Bool  -- `_process_exists`, by `os.kill`
  pub process_start_time : ℕ → Option String  -- `_linux_process_start_time`, from /proc
  pub bjobs : List String → Option Answer  -- `none` is an OSError
  pub upper : String → String

-- The truth of `state.get("run_id")`.
abbrev pub has_run_id : State → Bool
has_run_id s = elim s.run_id [ none ↦ false | some r ↦ not (str_eq r "") ]

abbrev pub candidate_of : Entry → List Candidate
candidate_of e =
    if not (e.is_file && e.is_json)
    then []
    else elim e.content [ none ↦ [] | some s ↦ if has_run_id s then (e.path, s) ∷ [] else [] ]

abbrev pub load_state_files : List Entry → List Candidate
load_state_files [] = []
load_state_files (e ∷ es) = candidate_of e ++ load_state_files es

-- The sets and maps of texts.
abbrev pub is_active_lsf_state : String → Bool
is_active_lsf_state s =
    str_eq s "PEND"
    || str_eq s "PROV"
    || str_eq s "PSUSP"
    || str_eq s "RUN"
    || str_eq s "SSUSP"
    || str_eq s "UNKWN"
    || str_eq s "USUSP"
    || str_eq s "WAIT"

abbrev pub find : String → List (String × String) → Option String
find k [] = none
find k ((j, v) ∷ s) = if str_eq k j then some v else find k s

-- The last entry of a key counts, so a new one goes in front.
abbrev pub parse_line :
    (String → String) → List String → List (String × String) → List (String × String)
parse_line upper (id ∷ (user ∷ (stat ∷ more))) states = (id, upper stat) ∷ states
parse_line upper _ states = states

abbrev pub parse_lines :
    (String → String) → List (List String) → List (String × String) → List (String × String)
parse_lines upper [] states = states
parse_lines upper (l ∷ ls) states = parse_lines upper ls (parse_line upper l states)

abbrev pub no_states : List (String × String) → Bool
no_states [] = true
no_states (s ∷ ss) = false

abbrev pub read_answer : (String → String) → Option Answer → Option (List (String × String))
read_answer upper none = none
read_answer upper (some a) =
    let states = parse_lines upper a.lines [] in
    if a.failed && no_states states then none else some states

module _ (m : Machine) where
  -- `none` is Python's None: another host, which cannot be asked.
  unfoldable pub local_state_is_active : State → Option Bool
  local_state_is_active s =
      let p = s.process in
      if not (same_text p.host (some m.hostname))
      then none
      else some (elim p.pid [
        | none ↦ false
        | some pid ↦ if ltb pid 1 || not (m.process_exists pid) then false else elim p.start_time [
          | none ↦ true
          | some t ↦ same_text (m.process_start_time pid) (some t)
        ]
      ])

  unfoldable pub query_lsf_states : List String → Option (List (String × String))
  query_lsf_states [] = some []
  query_lsf_states (id ∷ ids) = read_answer m.upper (m.bjobs (id ∷ ids))

  -- `state.get("lsf", {}).get("display_job_id")`, where an empty text counts as none.
  abbrev pub lsf_job : State → Option String
  lsf_job s = elim s.lsf [
    | none ↦ none
    | some l ↦ elim l.display_job_id [ none ↦ none | some j ↦ if str_eq j "" then none else some j ]
  ]

  -- The branch of the first loop that a run takes.
  pub data Place : Type 0 where
    here gone : Place
    asked : (job : String) → Place

  unfoldable pub place : State → Place
  unfolding local_state_is_active
  place s = elim (local_state_is_active s) [
    | some true ↦ here
    | some false ↦ gone
    | none ↦ elim (lsf_job s) [ some j ↦ asked j | none ↦ here ]
  ]

  -- The two lists that the first loop fills, and the files that it removes.
  pub record Sorting : Type 0 where
    pub active : List Candidate
    pub remote : List (Candidate × String)
    pub removed : List String

  abbrev pub put_at : Place → Candidate → Sorting → Sorting
  put_at here c b = record b { active = b.active ++ (c ∷ []) }
  put_at gone c b = record b { removed = b.removed ++ (c.0 ∷ []) }
  put_at (asked j) c b = record b { remote = b.remote ++ ((c, j) ∷ []) }

  abbrev pub sort_all : List Candidate → Sorting → Sorting
  sort_all [] b = b
  sort_all (c ∷ cs) b = sort_all cs (put_at (place c.1) c b)

  -- Whether LSF has the job, as far as one can know.
  abbrev pub lsf_keeps : Option (List (String × String)) → String → Bool
  lsf_keeps none job = true
  lsf_keeps (some states) job = elim (find job states) [
    | none ↦ false
    | some s ↦ is_active_lsf_state s
  ]

  abbrev pub keep_if : Bool → Candidate → Sorting → Sorting
  keep_if true c b = record b { active = b.active ++ (c ∷ []) }
  keep_if false c b = record b { removed = b.removed ++ (c.0 ∷ []) }

  abbrev pub keep_all :
      Option (List (String × String)) → List (Candidate × String) → Sorting → Sorting
  keep_all states [] b = b
  keep_all states ((c, job) ∷ rs) b = keep_all states rs (keep_if (lsf_keeps states job) c b)

  abbrev pub jobs : List (Candidate × String) → List String
  jobs [] = []
  jobs ((c, j) ∷ rs) = j ∷ jobs rs

  abbrev pub no_one : Sorting
  no_one = record { active = []; remote = []; removed = [] }

  -- Both loops.
  unfoldable pub select_active : List Candidate → Sorting
  unfolding place query_lsf_states
  select_active cs =
      let first = sort_all cs no_one in
      keep_all (query_lsf_states (jobs first.remote)) first.remote first

  -- The key of the final sort: the start, then the identifier.
  abbrev pub epoch_of : State → ℕ
  epoch_of s = elim s.started_at_epoch [ none ↦ 0 | some e ↦ e ]

  abbrev pub id_of : State → String
  id_of s = elim s.run_id [ none ↦ "" | some i ↦ i ]

  abbrev pub key_lt : State → State → Bool
  key_lt a b =
      ltb (epoch_of a) (epoch_of b) || epoch_of a == epoch_of b && str_lt (id_of a) (id_of b)

  -- `sorted`, which is stable.
  abbrev pub insert : Candidate → List Candidate → List Candidate
  insert c [] = c ∷ []
  insert c (d ∷ ds) = if key_lt d.1 c.1 then d ∷ insert c ds else c ∷ (d ∷ ds)

  abbrev pub sorted : List Candidate → List Candidate
  sorted [] = []
  sorted (c ∷ cs) = insert c (sorted cs)

  -- The states that are shown, and the paths whose files are removed.
  unfoldable pub load_active_runs : List Entry → List State × List String
  unfolding select_active
  load_active_runs entries =
      let b = select_active (load_state_files entries) in
      (map (λ c. c.1) (sorted b.active), b.removed)
