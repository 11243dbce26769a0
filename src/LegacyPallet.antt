-- ===== src/LegacyPallet.antt =====
-- src/pallet/mod.rs: the older pallet, with its storage, its three calls and its internal update. No module
-- line of src/lib.rs names that file. It builds its finality predicate and its generators with the
-- constructors of an earlier version of src/finality/mod.rs and src/proof/generator.rs, so what those
-- answer to a call is a parameter here, and so are the codec and `T::Hashing`.
pub mod Storage
pub mod Writes
pub mod Soundness
use frost_substrate.Prelude.{
  ◌*◌, ℕ, Bool, not, Option, none, some, List, [], ◌∷◌, ◌++◌, Bytes, leb, lookup, insert,
  if◌then◌else◌, Result, ok, err, String, map_err, ok_or, ◌>>=◌, ◌>>◌,
}
use frost_substrate.External.Frost.{
  BlockRef, FinalityError, ProofType, merkle, signature, basic, custom,
}
use frost_substrate.External.State.{StateTransition, StateError}

pub record LegacyConfig : Type 0 where
  pub proof_type : ProofType
  pub max_size : ℕ
  pub timeout : ℕ

abbrev pub legacy_config_default : LegacyConfig
legacy_config_default = record { proof_type = merkle; max_size = 1024 * 1024; timeout = 30 }

pub data LegacyEvent (C : Type 0) : Type 0 where
  transition_recorded : Bytes → LegacyEvent C
  legacy_proof_generated : Bytes → ProofType → LegacyEvent C
  message_verified : Bytes → LegacyEvent C
  state_finalized : BlockRef C → LegacyEvent C

pub data LegacyError : Type 0 where
  bad_origin : LegacyError
  invalid_transition invalid_proof invalid_message block_not_finalized : LegacyError
  proof_too_large unsupported_proof_type finality_verification_failed : LegacyError

pub record LegacyPallet (C P M : Type 0) : Type 0 where
  pub transitions : List (Bytes × StateTransition C)
  pub proofs : List (Bytes × P)
  pub messages : List (Bytes × M)
  pub latest_block : Option (BlockRef C)
  pub proof_config : LegacyConfig
  pub events : List (LegacyEvent C)

-- A generator as the calls use it. Its second method is not in `ProofGenerator` any more.
pub record LegacyGenerator (C P : Type 0) : Type 0 where
  pub generate_proof : StateTransition C → LegacyConfig → Result StateError P
  pub verify_proof : P → LegacyConfig → Result StateError Bool

-- What a call is made in: the answers of the predicate and of the generators that it builds, and the
-- methods and encodings of foreign types. A call reads the chain, so each has its own.
pub record LegacyRuntime (C P M : Type 0) : Type 0 where
  pub signed_origin : Bool
  pub validate_transition : StateTransition C → Bool
  pub validate_message : M → Bool
  pub is_final : BlockRef C → Result (FinalityError C) Bool
  pub merkle_generator : LegacyGenerator C P
  pub bls_generator : LegacyGenerator C P
  pub message_proof : M → P
  pub proof_type_of : P → ProofType
  pub encoded_size : P → ℕ
  pub max_proof_size : ℕ

-- `T::Hashing::hash_of`.
pub record Hashing (C M : Type 0) : Type 0 where
  pub hash_transition : StateTransition C → Bytes
  pub hash_message : M → Bytes

abbrev ensure : Bool → LegacyError → Result LegacyError (Unit {0})
ensure b e = if b then ok tt else err e

-- A call answers with its error, or with the storage that it leaves. It writes after its last check, so
-- an error leaves the storage as it was.
module _ {C P M : Type 0} (hashing : Hashing C M) (runtime : LegacyRuntime C P M) where
  -- `match proof_type`.
  abbrev pub generator_for : ProofType → Result LegacyError (LegacyGenerator C P)
  generator_for merkle = ok runtime.merkle_generator
  generator_for signature = ok runtime.bls_generator
  generator_for basic = err unsupported_proof_type
  generator_for (custom s) = err unsupported_proof_type

  unfoldable pub record_transition :
      StateTransition C → LegacyPallet C P M → Result LegacyError (LegacyPallet C P M)
  record_transition transition p = do
    ensure runtime.signed_origin bad_origin
    ensure (runtime.validate_transition transition) invalid_transition
    finalized ←
        map_err (λ e. finality_verification_failed)
          (runtime.is_final transition.pre_state.block_ref)
    ensure finalized block_not_finalized
    let transition_hash = hashing.hash_transition transition
    ok (record p {
      transitions = insert transition_hash transition p.transitions;
      events = p.events ++ transition_recorded transition_hash ∷ [];
    })

  unfoldable pub generate_legacy_proof :
      Bytes → ProofType → LegacyPallet C P M → Result LegacyError (LegacyPallet C P M)
  generate_legacy_proof transition_hash proof_type p = do
    ensure runtime.signed_origin bad_origin
    transition ← ok_or invalid_transition (lookup transition_hash p.transitions)
    generator ← generator_for proof_type
    let config = record p.proof_config { proof_type = proof_type }
    proof ← map_err (λ e. invalid_proof) (generator.generate_proof transition config)
    ensure (leb (runtime.encoded_size proof) runtime.max_proof_size) proof_too_large
    ok (record p {
      proofs = insert transition_hash proof p.proofs;
      events = p.events ++ legacy_proof_generated transition_hash proof_type ∷ [];
    })

  unfoldable pub verify_message : M → LegacyPallet C P M → Result LegacyError (LegacyPallet C P M)
  verify_message message p = do
    ensure runtime.signed_origin bad_origin
    ensure (runtime.validate_message message) invalid_message
    let proof = runtime.message_proof message
    generator ← generator_for (runtime.proof_type_of proof)
    verified ← map_err (λ e. invalid_proof) (generator.verify_proof proof p.proof_config)
    ensure verified invalid_proof
    let message_hash = hashing.hash_message message
    ok (record p {
      messages = insert message_hash message p.messages;
      events = p.events ++ message_verified message_hash ∷ [];
    })

module _ {C P M : Type 0} where
  unfoldable pub update_latest_block : BlockRef C → LegacyPallet C P M → LegacyPallet C P M
  update_latest_block block_ref p = record p {
    latest_block = some block_ref;
    events = p.events ++ state_finalized block_ref ∷ [];
  }
