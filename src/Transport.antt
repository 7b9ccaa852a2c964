-- ===== src/Transport.antt =====
-- crates/transport/src: links between two nodes, and the proofs that establish them.
pub mod Error
pub mod Signer
pub mod Proof
pub mod LinkData
pub mod Link
pub mod Resource
pub mod PacketTransport
pub mod Suspendable
mod Tests
