-- ===== src/Relay.antt =====
-- protocol/relay: the relay manager of a node.
pub mod Buffer
pub mod State
pub mod Messages
pub mod Sending
pub mod Setup
pub mod Inbound
pub mod Actor
pub mod Invariant
pub mod Runs
pub mod Rendezvous
pub mod Forwarding
pub mod Path
pub mod Connection
pub mod Delivery
pub mod Reception
