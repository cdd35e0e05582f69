-- ===== src/Policy.antt =====
-- crates/siorb-policy/src/lib.rs: layered policy with deny-wins semantics.
pub mod Layers
pub mod Dates
pub mod Versions
pub mod Checks
pub mod Evaluate
pub mod Preference
pub mod Load
mod Tests
