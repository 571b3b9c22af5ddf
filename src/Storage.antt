-- ===== src/Storage.antt =====
-- pc_app/kb7studio/storage.py: the A/B screen slots on a NOR flash.
-- `Header` is the 64-byte slot header, `Nor` the programming of flash bytes, `Slots` the class
-- `AtomicSlots`; the others prove what holds of them.
pub mod Header
pub mod Nor
pub mod Slots
pub mod Programmed
pub mod RoundTrip
pub mod Written
pub mod Regions
pub mod Atomic
pub mod History
pub mod Cleared
mod Tests
