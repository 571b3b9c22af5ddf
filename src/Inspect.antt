-- ===== src/Inspect.antt =====
-- The inspection of a captured flash: tools/inspect_stock_flash.py.
mod Differences
mod Compared
mod Manifest
mod Entries
mod Sectors
mod Tests
