-- ===== src/Protocol.antt =====
-- src/protocol: the hard gate over the chain's evidence.
pub mod HardGate
