-- ===== src/Store.antt =====
-- crates/meshelf-store: the tables of the offer store and their operations.
pub mod Database
pub mod Purge
pub mod Rows
pub mod Sources
pub mod Cards
pub mod Journal
pub mod Cache
pub mod Runs
