-- ===== src/Updater.antt =====
-- The offline planner of a USB update: tools/flash-access/kb7-updater-plan.py.
mod Regions
mod Operations
mod Staging
mod Bitwise
mod Applied
mod Interrupted
mod Between
mod Partial
mod Reconciled
mod Replay
mod Placed
mod Blocks
mod Sectors
mod Commands
pub mod Sequence
mod Poison
mod Grows
mod Build
pub mod Gf2
pub mod Patch
pub mod Target
pub mod Loads
mod Baseline
mod Simulation
mod Tests
