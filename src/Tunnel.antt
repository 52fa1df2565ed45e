-- ===== src/Tunnel.antt =====
-- internal/tunnel: the tunnel between nodes.
pub mod HopPool
pub mod Handshake
pub mod Transport
mod Examples
