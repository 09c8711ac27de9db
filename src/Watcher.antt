-- ===== src/Watcher.antt =====
-- crates/forgetty-watcher/src/watcher.rs: the two file watchers, which are polled for changes.
pub mod Event
pub mod Files
pub mod Config
mod Tests
