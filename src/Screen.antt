-- ===== src/Screen.antt =====
-- The screen format KBS1: pc_app/kb7studio/format.py.
pub mod Records
pub mod Parser
pub mod Lists
pub mod Documents
pub mod Tests
