-- ===== src/Loader.antt =====
-- src/loader.rs: the loader.
pub mod Symbols
pub mod Segments
pub mod Parser
pub mod Dependencies
pub mod Link
mod Runs
