-- ===== src/Simmer/Interrupts.antt =====
-- bin/simmer.py, _prompt_interrupt_action and _wait_for_jobs. The answers to the prompts are a list:
-- `none` is an end of the input or another interrupt, and when the list ends the prompt waits still.
pub mod Resumed
use rules_verilog.Base.{
  Bool, true, false, ◌||◌, String, Option, none, some, List, [], ◌∷◌, if◌then◌else◌,
}
use rules_verilog.Results.Text.{str_eq}

pub data Outcome : Type 0 where
  stop continue_run waiting : Outcome

-- What is done with the scheduler: `jm.pause`, `jm.resume`, and the log of its status.
pub data Event : Type 0 where
  pause resume show_status : Event

-- What an answer means, after `strip` and `lower`.
pub data Choice : Type 0 where
  choose_stop choose_continue choose_status choose_pause unknown : Choice

abbrev pub is_stop : String → Bool
is_stop a = str_eq a "s" || str_eq a "stop" || str_eq a "q" || str_eq a "quit"

abbrev pub is_continue : String → Bool
is_continue a = str_eq a "c" || str_eq a "continue"

abbrev pub is_status : String → Bool
is_status a =
    str_eq a "i" || str_eq a "info" || str_eq a "status" || str_eq a "l" || str_eq a "logs"

unfoldable pub choice : String → Choice
choice a =
    if str_eq a "" || is_stop a
    then choose_stop
    else if is_continue a
    then choose_continue
    else if is_status a
    then choose_status
    else if str_eq a "p" || str_eq a "pause"
    then choose_pause
    else unknown

unfoldable pub paused_choice : String → Choice
paused_choice a =
    if str_eq a "" || str_eq a "r" || str_eq a "resume" || is_continue a
    then choose_continue
    else if is_stop a
    then choose_stop
    else if is_status a
    then choose_status
    else unknown

abbrev pub after : Event → Outcome × List Event → Outcome × List Event
after e (o, es) = (o, e ∷ es)

-- The inner loop, while the run is paused.
abbrev pub paused_loop : List (Option String) → Outcome × List Event
paused_loop [] = (waiting, [])
paused_loop (none ∷ rest) = (stop, [])
paused_loop (some a ∷ rest) = elim (paused_choice a) [
  | choose_continue ↦ (continue_run, resume ∷ [])
  | choose_stop ↦ (stop, [])
  | choose_status ↦ after show_status (paused_loop rest)
  | _ ↦ paused_loop rest
]

abbrev pub prompt_loop : List (Option String) → Outcome × List Event
prompt_loop [] = (waiting, [])
prompt_loop (none ∷ rest) = (stop, [])
prompt_loop (some a ∷ rest) = elim (choice a) [
  | choose_stop ↦ (stop, [])
  | choose_continue ↦ (continue_run, [])
  | choose_status ↦ after show_status (prompt_loop rest)
  | choose_pause ↦ after pause (after show_status (paused_loop rest))
  | unknown ↦ prompt_loop rest
]

unfoldable pub prompt_interrupt_action :
    (interactive : Bool) → List (Option String) → Outcome × List Event
unfolding choice paused_choice
prompt_interrupt_action false answers = (stop, [])
prompt_interrupt_action true answers = prompt_loop answers

-- How the waits for the jobs end, in turn: `none` when the jobs are done, or with an interrupt and the
-- answers to its prompt.
pub data Waited : Type 0 where
  returned raised : Waited
  still : Waited  -- in a prompt, or in the wait

unfoldable pub wait_for_jobs : (interactive : Bool) → List (Option (List (Option String))) → Waited
unfolding prompt_interrupt_action
wait_for_jobs interactive [] = still
wait_for_jobs interactive (none ∷ rest) = returned
wait_for_jobs interactive (some answers ∷ rest) =
    let later = wait_for_jobs interactive rest in
    elim (prompt_interrupt_action interactive answers).0 [
      | stop ↦ raised
      | continue_run ↦ later
      | waiting ↦ still
    ]

-- Whether the scheduler is paused after the events.
unfoldable pub is_paused : Bool → List Event → Bool
is_paused p [] = p
is_paused p (pause ∷ es) = is_paused true es
is_paused p (resume ∷ es) = is_paused false es
is_paused p (show_status ∷ es) = is_paused p es

abbrev pub ends : List (Option String) → Bool
ends [] = false
ends (none ∷ rest) = true
ends (some a ∷ rest) = ends rest
