-- ===== src/Discovery.antt =====
-- lib/regression.py, RegressionConfig: which tests a run is made of. The tests are found by Bazel or
-- taken from the discovery cache, and the test selectors of the command line choose among them.
pub mod Chunks
pub mod Select
pub mod Cache
pub mod Refresh
mod Examples
