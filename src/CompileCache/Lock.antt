-- ===== src/CompileCache/Lock.antt =====
-- lib/compile_cache.py: CompileDirectoryLock.
use rules_verilog.Base.{ℕ, ◌+◌, ◌-◌, Bool, true, false, Option, none, some, if◌then◌else◌}

-- What `fcntl.flock` answers; only a call that does not block can be blocked.
pub data Flock : Type 0 where
  granted blocked broken : Flock

-- Whether the lock has its file, and how many files it has left open.
pub record Lock : Type 0 where
  pub is_held : Bool
  pub open_files : ℕ

-- The result, `none` for what is raised. A file that is not locked is closed again.
unfoldable pub acquire : Flock → Lock → Option Bool × Lock
acquire answer l = if l.is_held then (some true, l) else elim answer [
  | granted ↦ (some true, record { is_held = true; open_files = l.open_files + 1 })
  | blocked ↦ (some false, l)
  | broken ↦ (none, l)
]

-- Whether it returns. The file is closed and forgotten also when the unlocking raises.
unfoldable pub release : (unlocks : Bool) → Lock → Bool × Lock
release unlocks l =
    if l.is_held
    then (unlocks, record { is_held = false; open_files = l.open_files - 1 })
    else (true, l)
