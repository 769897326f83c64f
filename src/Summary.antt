-- ===== src/Summary.antt =====
-- lib/rv_utils.py: the summary of a regression, and the statistics of its
-- categories.
pub mod Counts
pub mod Categories
mod Examples
