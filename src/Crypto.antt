-- ===== src/Crypto.antt =====
-- src/psl_channel_fsm_crypto.c: the crypto states of the channel's state machine.
pub mod Types
pub mod Session
pub mod Read
pub mod Pieces
pub mod Reading
pub mod Write
pub mod Writing
pub mod Watching
pub mod Deferred
pub mod Transfer
pub mod Sound
pub mod Flushing
pub mod Sweeping
pub mod Steps
pub mod ReadSteps
pub mod Rounds
pub mod Preprocessing
pub mod Receiving
pub mod Reporting
pub mod Accepting
pub mod Stream
pub mod Machine
pub mod Handshake
pub mod Renegotiate
pub mod RenegotiateLost
pub mod Shutdown
pub mod States
pub mod Active
pub mod Shut
pub mod Verify
pub mod Accepted
pub mod Fixtures
mod Tests
