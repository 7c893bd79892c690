-- ===== src/Proxy.antt =====
-- protocol/proxy: the clients a node serves, and what it does on their requests.
pub mod State
pub mod Gossip
pub mod Circuit
pub mod Handler
pub mod Clients
pub mod Requests
pub mod Registry
pub mod Joint
pub mod Negotiation
