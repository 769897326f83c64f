-- ===== src/Timing.antt =====
-- lib/simmer_results.py, _consume_elapsed_time, and the interval loop of lib/bazel_profile.py,
-- repository_timings: the time that a set of intervals covers, counted once where they overlap.
-- Time stamps are whole milliseconds, or microseconds, since some fixed moment.
pub mod Measure
pub mod Elapsed
mod Examples
use rules_verilog.Base.{
  ℕ, zero, suc, ◌+◌, ◌-◌, Bool, true, false, ◌&&◌, ◌||◌, Option, none, some, List, [], ◌∷◌, ltb,
  leb, ◌==◌, max, any, if◌then◌else◌,
}

abbrev pub Interval : Type 0
Interval = ℕ × ℕ

-- The order of Python's tuples.
abbrev pub tuple_before : Interval → Interval → Bool
tuple_before (a, b) (c, d) = ltb a c || (a == c && ltb b d)

-- `list.sort()`. Equal pairs cannot be told apart, so any sort gives the same list.
abbrev pub insert_sorted : Interval → List Interval → List Interval
insert_sorted i [] = i ∷ []
insert_sorted i (k ∷ ks) = if tuple_before k i then k ∷ insert_sorted i ks else i ∷ (k ∷ ks)

abbrev pub sort : List Interval → List Interval
sort [] = []
sort (i ∷ is) = insert_sorted i (sort is)

-- The intervals of the records that have one, with `stop >= start`.
abbrev pub collect : List (Option Interval) → List Interval
collect [] = []
collect (none ∷ rs) = collect rs
collect (some (start, stop) ∷ rs) =
    if leb start stop then (start, stop) ∷ collect rs else collect rs

-- The loop over the sorted intervals.
unfoldable pub merge_loop : (current_start current_stop elapsed : ℕ) → List Interval → ℕ
merge_loop current_start current_stop elapsed [] = elapsed + (current_stop - current_start)
merge_loop current_start current_stop elapsed ((start, stop) ∷ is) =
    let joined = merge_loop current_start (max current_stop stop) elapsed is in
    let apart = merge_loop start stop (elapsed + (current_stop - current_start)) is in
    if leb start current_stop then joined else apart

abbrev pub elapsed_sorted : List Interval → Option ℕ
elapsed_sorted [] = none
elapsed_sorted ((start, stop) ∷ is) = some (merge_loop start stop 0 is)

unfoldable pub consume_elapsed_time : List (Option Interval) → Option ℕ
unfolding merge_loop
consume_elapsed_time records = elapsed_sorted (sort (collect records))

-- The loop of `repository_timings` for one repository; `none` is `interval_end_us = None`.
unfoldable pub positioned_loop : Option ℕ → ℕ → List Interval → ℕ
positioned_loop end duration [] = duration
positioned_loop none duration ((start, stop) ∷ is) =
    positioned_loop (some stop) (duration + (stop - start)) is
positioned_loop (some end) duration ((start, stop) ∷ is) =
    let apart = positioned_loop (some stop) (duration + (stop - start)) is in
    let longer = positioned_loop (some stop) (duration + (stop - end)) is in
    let inside = positioned_loop (some end) duration is in
    if ltb end start then apart else if ltb end stop then longer else inside

unfoldable pub positioned_duration : List Interval → ℕ
unfolding positioned_loop
positioned_duration intervals = positioned_loop none 0 (sort intervals)
