-- ===== src/Examples.antt =====
-- Tests and instances of the theorems at concrete inputs.
mod Codecs
mod RelayNodes
mod Channels
mod Requests
mod Proxies
mod Sessions
mod Circuits
mod Topics
mod Handshakes
mod Clients
mod Accounts
