-- ===== src/Bindings.antt =====
-- src/bindings_macho.rs and src/bindings_dsc.rs.
pub mod MachO
pub mod Chained
pub mod ChainedPtr
pub mod SharedCache
