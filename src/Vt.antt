-- ===== src/Vt.antt =====
-- crates/forgetty-vt: the text selection of the terminal.
pub mod Selection
mod Tests
