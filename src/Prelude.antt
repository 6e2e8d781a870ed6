-- ===== src/Prelude.antt =====
-- The names that the other modules share.
pub mod Tests
pub mod Lists
pub mod Order
pub mod BTreeMap
pub mod Bytes
