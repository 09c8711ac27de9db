-- ===== src/Watcher/Event.antt =====
-- crates/forgetty-watcher/src/watcher.rs: what the library `notify` sends. A path is known by a number,
-- with the parts of its name that the watchers ask for. A time is a number of nanoseconds.
use forgetty.Base.{ℕ, String, List, Option}

pub record WatchedPath : Type 0 where
  pub id : ℕ
  -- `path.extension().to_str()`, as `to_lowercase` returns it
  pub lowercase_extension : Option String
  -- `path.file_name().to_str()`
  pub file_name : Option String

-- `other` stands for the kinds that the watchers do not name.
pub data EventKind : Type 0 where
  create modify remove other : EventKind

pub record Event : Type 0 where
  pub kind : EventKind
  pub paths : List WatchedPath
