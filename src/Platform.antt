-- ===== src/Platform.antt =====
-- crates/meshelf-platform: of its calls of the operating system, the walk of filesystem.rs that makes
-- the directories of a path.
pub mod Filesystem
