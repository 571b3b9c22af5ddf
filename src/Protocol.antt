-- ===== src/Protocol.antt =====
-- pc_app/kb7studio/protocol.py: the vendor-HID transfer protocol.
-- `Report` is the 64-byte frame, `Transfer` the plan that the host sends, `Receiver` the class
-- `OfflineReceiver`; the others prove what holds of them.
pub mod Report
pub mod Transfer
pub mod Receiver
pub mod Framing
pub mod Frames
pub mod Replies
pub mod Valid
pub mod Kept
pub mod Outcomes
mod Answers
pub mod Committed
pub mod Wire
pub mod Accepts
pub mod Upload
pub mod Reading
pub mod Formats
pub mod Sessions
mod Tests
