-- ===== src/Profile.antt =====
-- The profile container KBP1: pc_app/kb7studio/profile_binary.py.
pub mod Record
pub mod Container
pub mod Compile
pub mod Framed
mod Tests
