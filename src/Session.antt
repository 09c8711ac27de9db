-- ===== src/Session.antt =====
-- The crate crates/forgetty-session: the daemon-side session manager.
pub mod ByteLog
pub mod Tree
pub mod State
pub mod Registry
pub mod Workspaces
pub mod Tabs
pub mod Panes
pub mod Duplicate
pub mod Output
pub mod Snapshot
pub mod Invariant
pub mod Run
pub mod Active
pub mod Deletion
pub mod Creation
pub mod Tests
pub mod Placement
pub mod Splitting
pub mod Closing
pub mod Replay
pub mod Seeding
