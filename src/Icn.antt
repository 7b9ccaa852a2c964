-- ===== src/Icn.antt =====
-- crates/icn: named data over links.
pub mod Name
pub mod Fib
pub mod Pit
pub mod Varint
pub mod Selector
pub mod Interest
pub mod Metadata
pub mod Data
pub mod ContentStore
pub mod Strategy
pub mod Forwarder
mod Tests
