-- ===== src/Finality.antt =====
-- src/finality/mod.rs.
pub mod Errors
pub mod Config
pub mod Authorities
pub mod Client
pub mod Predicate
pub mod Build
