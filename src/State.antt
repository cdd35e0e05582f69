-- ===== src/State.antt =====
-- crates/siorb-state/src/lib.rs: receipts, preferences and the transaction journal.
-- A store's files are modelled by the values that they hold. The checks of the file system
-- (private directories, links, owners) and the encoding as JSON are not.
pub mod Journal
pub mod Store
mod Tests
