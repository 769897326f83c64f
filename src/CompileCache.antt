-- ===== src/CompileCache.antt =====
-- lib/compile_cache.py: when the simulator build of an earlier run can be used again.
pub mod FileLists
pub mod Json
pub mod Fingerprint
pub mod Lock
pub mod Script
mod Examples
