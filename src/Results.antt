-- ===== src/Results.antt =====
-- lib/simmer_results.py: the record of one simmer run, from its creation to its final status, and
-- the history store (`Store`). A JSON object is a record; a key that may be missing or null is an
-- `Option`. Time stamps are numbers, texts are strings.
pub mod Text
pub mod Records
pub mod Final
pub mod Store
pub mod Upsert
pub mod Statuses
pub mod History
pub mod Report
mod Examples
