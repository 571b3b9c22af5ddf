-- ===== src/Protocol/Receiver.antt =====
-- `OfflineReceiver` of protocol.py: its state, a function for each operation, and `process`.
mod State
mod Handlers
mod Dispatch
unfoldable pub use State.*
unfoldable pub use Handlers.*
unfoldable pub use Dispatch.*
