-- ===== src/Simmer/Interrupts/Resumed.antt =====
-- How a prompt after an interrupt ends.
use rules_verilog.Base.{
  ◌≡◌, ◌≢◌, Bool, true, false, String, Option, none, some, List, [], ◌∷◌, arith,
}
use rules_verilog.Simmer.Interrupts.{
  continue_run, waiting, paused_loop, prompt_loop, prompt_interrupt_action, is_paused, ends,
}

paused_loop_lem :
    (answers : List (Option String))
    → ((paused_loop answers).0 ≡ continue_run → is_paused true (paused_loop answers).1 ≡ false)
      × (ends answers ≡ true → (paused_loop answers).0 ≢ waiting)
unfolding is_paused
paused_loop_lem [] = (λ h. ground arith, λ h. ground arith)
paused_loop_lem (none ∷ rest) = (λ h. ground arith, λ h. ground arith)
paused_loop_lem (some a ∷ rest) =
    (λ h. ground (arith, (paused_loop_lem rest).0), λ h. ground (arith, (paused_loop_lem rest).1))

prompt_loop_lem :
    (answers : List (Option String))
    → ((prompt_loop answers).0 ≡ continue_run → is_paused false (prompt_loop answers).1 ≡ false)
      × (ends answers ≡ true → (prompt_loop answers).0 ≢ waiting)
unfolding is_paused
prompt_loop_lem [] = (λ h. ground arith, λ h. ground arith)
prompt_loop_lem (none ∷ rest) = (λ h. ground arith, λ h. ground arith)
prompt_loop_lem (some a ∷ rest) = (
  λ h. ground (arith, (prompt_loop_lem rest).0, (paused_loop_lem rest).0),
  λ h. ground (arith, (prompt_loop_lem rest).1, (paused_loop_lem rest).1),
)

-- The prompt never continues the run and leaves the scheduler paused, and it comes to a decision when
-- the input ends or is interrupted once more.
pub prompt_interrupt_action-is_paused :
    (interactive : Bool) (answers : List (Option String))
    → let result = prompt_interrupt_action interactive answers in
      (result.0 ≡ continue_run → is_paused false result.1 ≡ false)
      × (ends answers ≡ true → result.0 ≢ waiting)
unfolding prompt_interrupt_action
prompt_interrupt_action-is_paused false answers = (λ h. ground arith, λ h. ground arith)
prompt_interrupt_action-is_paused true answers = prompt_loop_lem answers
