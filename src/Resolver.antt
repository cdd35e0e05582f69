-- ===== src/Resolver.antt =====
-- crates/siorb-resolver/src/lib.rs: the choice of a source for a request.
pub mod Constraint
pub mod Host
pub mod Candidate
pub mod Select
pub mod Resolve
mod Tests
