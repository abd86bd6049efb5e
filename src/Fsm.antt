-- ===== src/Fsm.antt =====
-- The channel's state machine.
pub mod Types
pub mod Transitions
pub mod Sme
pub mod Main
pub mod Io
pub mod System
pub mod Sockets
pub mod Conn
pub mod Plain
pub mod Callbacks
pub mod Events
pub mod Ready
pub mod Delivery
pub mod Setup
pub mod Configured
pub mod Descriptors
pub mod Closing
pub mod Connecting
pub mod Transfer
pub mod Running
pub mod Fixtures
mod Tests
