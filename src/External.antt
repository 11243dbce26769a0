-- ===== src/External.antt =====
-- What the code calls and this repository does not hold: f64 arithmetic, the GRANDPA crates, the chain
-- client and frost_protocol. Each is a record of operations that the definitions take as a parameter.
pub mod Float
pub mod Chain
pub mod Frost
pub mod Grandpa
pub mod State
