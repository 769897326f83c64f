-- ===== src/Timing/Examples.antt =====
-- Runs and instances for the elapsed times.
use rules_verilog.Base.{◌≡◌, ◌⊎◌, refl, Option, none, some, List, [], ◌∷◌, arith}
use rules_verilog.Timing.{Interval, consume_elapsed_time, positioned_duration}
use rules_verilog.Timing.Measure.{measure, covered}
use rules_verilog.Timing.Elapsed.{
  AreIdle, covered_by, consume_elapsed_time-measure, positioned_duration-measure,
}

abbrev records : List (Option Interval)
records = some (10, 20) ∷ none ∷ some (0, 5) ∷ some (3, 12) ∷ some (9, 7) ∷ []

elapsed_run : consume_elapsed_time records ≡ some 20
unfolding consume_elapsed_time
elapsed_run = refl

consume_elapsed_time-measure_example :
    (consume_elapsed_time records ≡ none) × AreIdle records
    ⊎ (consume_elapsed_time records ≡ some (measure 20 (covered_by records))) × (¬ AreIdle records)
consume_elapsed_time-measure_example = consume_elapsed_time-measure 20 records (omega arith)

abbrev intervals : List Interval
intervals = (4, 9) ∷ (0, 5) ∷ (6, 7) ∷ (20, 21) ∷ []

positioned_run : positioned_duration intervals ≡ 10
unfolding positioned_duration
positioned_run = refl

positioned_duration-measure_example : positioned_duration intervals ≡ measure 30 (covered intervals)
positioned_duration-measure_example = positioned_duration-measure 30 intervals (omega arith)
