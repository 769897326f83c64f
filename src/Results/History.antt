-- ===== src/Results/History.antt =====
-- The history store keeps the newest runs, and one run per identifier.
use rules_verilog.Base.{
  ℕ, ◌≤◌, ◌≡◌, ◌⊎◌, false, not, String, Option, some, List, [], ◌∷◌, ◌++◌, length,
}
use rules_verilog.Results.Text.{same_text}
use rules_verilog.Results.Records.{Run}
use rules_verilog.Results.Final.{count_if, filter_if}
use rules_verilog.Results.Store.{History, last_of, stored_run, has_id}

-- What a store holds after a run was saved.
pub record Saved (run : Run) (max_runs : ℕ) (before after : History) : Type 0 where
  -- The saved run is the last run and the last of the list.
  pub newest : after.last_run ≡ some (stored_run run)
  pub at_end : last_of after.runs ≡ some (stored_run run)
  pub bounded : length after.runs ≤ max_runs
  -- It is the only run with its identifier, and no identifier became more frequent otherwise.
  pub single : count_if (has_id run.run_id) after.runs ≡ 1
  pub others :
      (id : Option String)
      → same_text run.run_id id ≡ false
      → count_if (has_id id) after.runs ≤ count_if (has_id id) before.runs
  -- Before it stand the newest of the other runs, in their order; the oldest are dropped only if
  -- the store is full.
  pub earlier :
      (dropped : List Run) × (older : List Run) × (filter_if
          (λ r. not (has_id run.run_id r))
          before.runs
        ≡ dropped ++ older)
      × (after.runs ≡ older ++ (stored_run run ∷ []))
      × ((dropped ≡ []) ⊎ (length after.runs ≡ max_runs))
