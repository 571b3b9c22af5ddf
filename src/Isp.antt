-- ===== src/Isp.antt =====
-- The read-only flash verifier: tools/flash-access/kb7-isp-verify.py.
mod Transport
mod Reader
mod ReadOnly
mod Exchange
mod Reads
mod Regions
mod Verified
mod Tests
