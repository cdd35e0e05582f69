-- ===== src/Core.antt =====
-- crates/siorb-core/src/lib.rs: the contracts that the other crates share.
pub mod Errors
pub mod Hosts
pub mod Platform
