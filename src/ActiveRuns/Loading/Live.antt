-- ===== src/ActiveRuns/Loading/Live.antt =====
-- lib/simmer_state.py: when a registered run is active, told apart from the loops that sort the runs.
use rules_verilog.Base.{
  ◌≡◌, refl, ◌∙◌, any, not, Bool, true, false, ◌&&◌, String, Option, none, some, List, [], ◌∷◌,
  ◌++◌, if◌then◌else◌, ltb, arith,
}
use rules_verilog.Results.Text.{same_text, str_eq, truthy}
use rules_verilog.ActiveRuns.State.{State, Process}
use rules_verilog.ActiveRuns.Loading.{
  Candidate, Machine, here, gone, asked, place, local_state_is_active, lsf_job, lsf_keeps, Answer,
  find, parse_lines, no_states, read_answer, query_lsf_states,
}

-- The job that LSF shows for a run, if it has a name.
abbrev pub job_of : State → Option String
job_of s = elim s.lsf [
  | none ↦ none
  | some l ↦ if truthy l.display_job_id then l.display_job_id else none
]

-- The states of a job that is not over.
abbrev pub unfinished_states : List String
unfinished_states = "PEND" ∷ "PROV" ∷ "PSUSP" ∷ "RUN" ∷ "SSUSP" ∷ "UNKWN" ∷ "USUSP" ∷ "WAIT" ∷ []

-- A line of `bjobs` names a job, its user and its state.
abbrev pub is_job_line : List String → Bool
is_job_line (id ∷ (user ∷ (stat ∷ more))) = true
is_job_line _ = false

module _ (m : Machine) where
  -- The state of a job by the last line of an answer that names it.
  abbrev pub state_in : String → List String → Option String
  state_in job (id ∷ (user ∷ (stat ∷ more))) = if str_eq job id then some (m.upper stat) else none
  state_in job _ = none

  abbrev pub last_state : String → List (List String) → Option String
  last_state job [] = none
  last_state job (l ∷ ls) = elim (last_state job ls) [ some s ↦ some s | none ↦ state_in job l ]

  -- Whether a job counts as one that still runs, when LSF is asked about `jobs`, all at once: it does,
  -- unless LSF answers with another state of it, or with nothing about it. A command that fails
  -- without naming any job is no answer.
  abbrev pub told : (jobs : List String) → String → Bool
  told [] job = false
  told (j ∷ js) job = elim (m.bjobs (j ∷ js)) [
    | none ↦ true
    | some a ↦
        if a.failed && not (any is_job_line a.lines) then true else (elim (last_state job a.lines) [
          | none ↦ false
          | some s ↦ any (str_eq s) unfinished_states
        ])
  ]

  -- A run on this host.
  abbrev pub is_local : State → Bool
  is_local s = same_text s.process.host (some m.hostname)

  -- The process exists, and is the one that was started for the run where its start is known.
  abbrev pub is_running : Process → Bool
  is_running p = elim p.pid [
    | none ↦ false
    | some pid ↦ ltb 0 pid && m.process_exists pid && (elim p.start_time [
      | none ↦ true
      | some t ↦ same_text (m.process_start_time pid) (some t)
    ])
  ]

  -- The jobs of the runs on other hosts.
  unfoldable pub asked_jobs : List Candidate → List String
  asked_jobs [] = []
  asked_jobs (c ∷ cs) =
      (if is_local c.1 then [] else (elim (job_of c.1) [ none ↦ [] | some j ↦ j ∷ [] ]))
      ++ asked_jobs cs

  -- A run on this host is active with its process. One on another host is when its job is kept, or when
  -- it has none.
  unfoldable pub is_live : (keeps : String → Bool) → State → Bool
  is_live keeps s =
      if is_local s
      then is_running s.process
      else (elim (job_of s) [ none ↦ true | some j ↦ keeps j ])

  unfoldable pub live : (keeps : String → Bool) → List Candidate → List Candidate
  live keeps [] = []
  live keeps (c ∷ cs) = (if is_live keeps c.1 then c ∷ [] else []) ++ live keeps cs

  unfoldable pub dead : (keeps : String → Bool) → List Candidate → List String
  dead keeps [] = []
  dead keeps (c ∷ cs) = (if is_live keeps c.1 then [] else c.0 ∷ []) ++ dead keeps cs

  job_of-lsf_job : (s : State) → job_of s ≡ lsf_job m s
  job_of-lsf_job s = ground arith

  find-parse_lines :
      (job : String) (ls : List (List String)) (states : List (String × String))
      → find job (parse_lines m.upper ls states)
        ≡ (elim (last_state job ls) [ some s ↦ some s | none ↦ find job states ])
  find-parse_lines job [] states = refl
  find-parse_lines job ((id ∷ (user ∷ (stat ∷ more))) ∷ ls) states =
      find-parse_lines job ls ((id, m.upper stat) ∷ states) ∙ ground arith
  find-parse_lines job ([] ∷ ls) states = find-parse_lines job ls states ∙ ground arith
  find-parse_lines job ((a ∷ []) ∷ ls) states = find-parse_lines job ls states ∙ ground arith
  find-parse_lines job ((a ∷ (b ∷ [])) ∷ ls) states = find-parse_lines job ls states ∙ ground arith

  no_states-parse_lines :
      (ls : List (List String)) (states : List (String × String))
      → no_states (parse_lines m.upper ls states) ≡ not (any is_job_line ls) && no_states states
  no_states-parse_lines [] states = refl
  no_states-parse_lines ((id ∷ (user ∷ (stat ∷ more))) ∷ ls) states =
      no_states-parse_lines ls ((id, m.upper stat) ∷ states) ∙ ground arith
  no_states-parse_lines ([] ∷ ls) states = no_states-parse_lines ls states
  no_states-parse_lines ((a ∷ []) ∷ ls) states = no_states-parse_lines ls states
  no_states-parse_lines ((a ∷ (b ∷ [])) ∷ ls) states = no_states-parse_lines ls states

  pub lsf_keeps-told :
      (jobs : List String) (job : String)
      → lsf_keeps m (query_lsf_states m jobs) job ≡ told jobs job
  unfolding query_lsf_states
  lsf_keeps-told [] job = refl
  lsf_keeps-told (j ∷ js) job = answered (m.bjobs (j ∷ js))
    where
      answered :
          (o : Option Answer)
          → lsf_keeps m (read_answer m.upper o) job ≡ (elim o [
            | none ↦ true
            | some a ↦
                if a.failed && not (any is_job_line a.lines)
                then true
                else (elim (last_state job a.lines) [
                  | none ↦ false
                  | some s ↦ any (str_eq s) unfinished_states
                ])
          ])
      answered none = refl
      answered (some a) =
          ground (arith, find-parse_lines job a.lines [], no_states-parse_lines a.lines [])

  pub is_live-place :
      (keeps : String → Bool) (s : State)
      → is_live keeps s ≡ (elim (place m s) [ here ↦ true | gone ↦ false | asked j ↦ keeps j ])
  unfolding is_live place local_state_is_active
  is_live-place keeps s = ground (arith, job_of-lsf_job s)

  pub asked_job-place :
      (s : State)
      → (if is_local s then [] else (elim (job_of s) [ none ↦ [] | some j ↦ j ∷ [] ]))
        ≡ (elim (place m s) [ asked j ↦ j ∷ [] | _ ↦ [] ])
  unfolding place local_state_is_active
  asked_job-place s = ground (arith, job_of-lsf_job s)
