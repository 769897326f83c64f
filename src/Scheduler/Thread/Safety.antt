-- ===== src/Scheduler/Thread/Safety.antt =====
-- The scheduler thread does not end by an exception of its queues' sections.
use rules_verilog.Base.{ℕ, ◌≢◌}
use rules_verilog.Scheduler.State.{Graph, unknown}

-- Every job has one of the two execution modes of the code.
abbrev pub HasModes : Graph → Type 0
HasModes g = (z : ℕ) → g.mode z ≢ unknown
