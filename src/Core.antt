-- ===== src/Core.antt =====
-- crates/meshelf-core: the domain's values and their validation.
pub mod Model
pub mod Destination
pub mod Offer
pub mod Activation
pub mod Records
