-- ===== src/Update.antt =====
-- crates/siorb-update/src/lib.rs: signed repository metadata, its verification, root rotation and
-- the choice of a release.
pub mod Metadata
pub mod Roles
pub mod Verifier
pub mod Transport
mod Tests
