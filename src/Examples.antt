-- ===== src/Examples.antt =====
-- A small chain with concrete voters, proofs and clocks, and what the theorems say of it.
pub mod World
pub mod Authorities
pub mod Finality
pub mod Proofs
pub mod Observers
pub mod Pallets
pub mod Clients
pub mod Legacy
pub mod Interleavings
pub mod Races
pub mod Registries
pub mod Forks
