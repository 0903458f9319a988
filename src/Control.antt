-- ===== src/Control.antt =====
-- crates/meshelf-control: of the coordinator, the store of cards that it gives to the handler of
-- announcements.
pub mod Notifying
