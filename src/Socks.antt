-- ===== src/Socks.antt =====
-- src/socks: the client's side of the SOCKS5 protocol.
pub mod Handshake
pub mod Connector
pub mod Associate
pub mod Samples
mod Runs
