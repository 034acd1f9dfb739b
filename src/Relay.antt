-- ===== src/Relay.antt =====
-- services/remote-relay/src: the relay that keeps encrypted envelopes for remote devices.
pub mod Limits
pub mod Waiters
pub mod State
pub mod Inbox
pub mod Publish
pub mod History
pub mod Polls
pub mod Devices
