-- ===== src/Secure.antt =====
-- secure: the byte stream that a secure session runs over a circuit connection.
pub mod Words
pub mod Payload
pub mod Framing
pub mod Handshake
