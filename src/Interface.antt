-- ===== src/Interface.antt =====
-- crates/interface/src: framing of packets on byte streams, and the interfaces that use it.
pub mod Framing
pub mod Hdlc
pub mod Kiss
pub mod Serial
mod Tests
