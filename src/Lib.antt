-- ===== src/Lib.antt =====
-- A bridge between GRANDPA-finalized substrate chains and the FROST protocol: a pallet takes watch
-- targets, an observer goes through each finalized block, proves the events that match a target and
-- hands the proofs to a router, and a predicate decides from the chain what counts as final.
--
-- Parts and files:
-- - Finality and its children: src/finality/mod.rs. Authorities is `AuthoritySetManager`; Client with
--   Justification, Status, Cache, Tasks (`get_finality_status_cached` in several tasks at once), Queries,
--   Confidence and Counters is `SubstrateVerificationClient` with its counters of signatures; Predicate
--   is `GrandpaFinality` as a `FinalityPredicate` (`is_final`, `wait_for_finality`); Build is how it is
--   made and how its authorities change; Config and Errors are its types.
-- - RuntimeApi: src/runtime_api.rs. Proof, with Merkle and Bls: src/proof/generator.rs. Verification:
--   src/verification/mod.rs.
-- - Observer: src/observer/mod.rs, with Matching (`matches_watch_target`), Transition (also
--   src/wrapper_types.rs), Notify (`handle_finality_notification`), Worker (`SSMPWorker`) and Turns (the
--   worker step by step, with `register_watch_target` in between).
-- - Pallet: src/lib.rs, with the call, the hook and a runtime's slot of the observers; Registry is
--   `OBSERVERS`, the map and the lock that the runtimes of a process share.
-- - LegacyPallet: src/pallet/mod.rs, the older pallet, which no module line of src/lib.rs names.
-- - Routing: src/routing/mod.rs, `RouterAdapter`.
-- - Prelude: results, maps, byte lists and Boolean tests. Examples: a small chain and what the theorems
--   say of it.
-- The other modules under a part hold what is proved of it.
--
-- The pallet owns the slot of the observer; the observer owns a predicate, and the predicate a client.
-- The client reads the chain. `is_final` awaits the client three times, and each await has a state of the
-- chain and of the client of its own, since both may change in between. Within one of them the header,
-- the justification, the finalized number and the voter set are read at one moment.
--
-- What runs side by side is a sequence of steps. A step of the worker, or of a call of the status cache,
-- goes from one await or lock to the next, and what else writes the same state comes between two steps:
-- registrations for the worker, other calls and set changes for the cache. A runtime's call of
-- `ensure_observer` is one step, since it holds the lock throughout.
--
-- State is passed explicitly: a method that writes returns the new record, and an error leaves the old
-- one unless the code writes before it fails. A panic is a value (`Fault`), as is a lock that a panic
-- poisons; a panic in a notification ends the worker, while an error is logged and the next notification
-- comes. Block numbers and weights are natural numbers with the code's bounds written out: the greatest
-- block number is a parameter, set ids wrap at 2 ^ 64, the tally saturates there, encoded lengths are
-- cut to 32 bits, and the sum of a time and a time to live panics behind the end of the clock, which is a
-- parameter. A `u32` or `u64` field is the number that it holds. The wrap of a set id is that of a
-- release build, where a debug build panics. `Tally.valid_signatures` is an i32 in the code and a natural
-- number here; nothing reads it.
--
-- Code of other crates is a parameter, in External: `Float` is f64, `Grandpa` the GRANDPA crates, `Frost`
-- and `States` frost_protocol with its codecs, `Chain` the substrate client at one moment. What a theorem
-- needs of them is named there: `IsFloat`, `IsVoterSets` and `IsStates`. An observer's proof generator and
-- router answer each call as functions of what they are given. A generator of Proof that stands in an
-- observer keeps the chain and the clock it was made with, and the router's own state is not modelled.
--
-- Fuel: cutting bytes into leaves takes a unit for each byte, and each leaf uses up at least one byte, so
-- the cutting is never short of it. Waiting takes a unit for each round; with no fuel left it answers
-- `none`, and a bound on the rounds is among the results.
--
-- The older pallet calls constructors and methods that src/finality/mod.rs and src/proof/generator.rs
-- offered in an earlier form only. What its predicate and its generators answer is a parameter there, and
-- the theorem on it names what it relies on (`IsHonest`).
--
-- Not modelled: logs; the code that the macros of FRAME generate; src/tests.rs and src/mock.rs.
pub mod Prelude
pub mod External
pub mod Finality
pub mod RuntimeApi
pub mod Proof
pub mod Verification
pub mod Observer
pub mod Routing
pub mod Pallet
pub mod LegacyPallet
pub mod Examples
