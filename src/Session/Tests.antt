-- ===== src/Session/Tests.antt =====
-- Concrete sessions, runs of the code on them, and the theorems at these sessions.
pub mod Demo
mod Layout
pub mod Output
