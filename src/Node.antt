-- ===== src/Node.antt =====
-- internal/node: the three kinds of node.
pub mod Access
pub mod Relay
pub mod Egress
mod Examples
