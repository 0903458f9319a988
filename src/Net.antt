-- ===== src/Net.antt =====
-- crates/meshelf-net/src: the errors, who is trusted, the announcements of offers, and the parts of a
-- fetch on the receiving side.
pub mod Announce
pub mod Announcements
pub mod Connection
pub mod Destination
pub mod Detail
pub mod Errors
pub mod Ledger
pub mod Reader
pub mod SideEffect
pub mod Trust
pub mod Plan
pub mod Manifest
