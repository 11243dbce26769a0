-- ===== src/Proof/Merkle.antt =====
-- src/proof/generator.rs: `MerkleProofGenerator`.
use frost_substrate.Prelude.{
  error, lift, Fault, ℕ, zero, suc, ◌-◌, Option, none, some, List, [], ◌∷◌, ◌++◌, Bytes, length,
  take, drop, replicate, Result, ok_or, ◌>>=◌, ◌>>◌,
}
use frost_substrate.External.Frost.{ProofType, custom}
use frost_substrate.External.State.{StateError, internal, StateTransition, States, merkle_metadata}
use frost_substrate.Proof.{
  ProofGenerationConfig, ProofGenerator, Surroundings, check_type, block_header, summary,
  finish_proof,
}

-- `buffer[..chunk.len()].copy_from_slice(chunk)` on a buffer of 32 zeros.
abbrev pub pad : Bytes → Bytes
pad chunk = chunk ++ replicate (32 - length chunk) 0

-- `data.chunks(32)`, each chunk padded. A chunk is not empty, so one unit of fuel for each byte is
-- enough.
unfoldable pub leaves_from : ℕ → Bytes → List Bytes
leaves_from zero bytes = []
leaves_from (suc fuel) [] = []
leaves_from (suc fuel) (b ∷ bytes) =
    pad (take 32 (b ∷ bytes)) ∷ leaves_from fuel (drop 32 (b ∷ bytes))

abbrev pub merkle_leaves : Bytes → List Bytes
merkle_leaves bytes = leaves_from (length bytes) bytes

-- `unwrap_or_default()`.
abbrev pub or_empty : Option Bytes → Bytes
or_empty none = []
or_empty (some bytes) = bytes

abbrev pub merkle_type : ProofType
merkle_type = custom "Merkle"

module _ {C P : Type 0} (st : States C P) (world : Surroundings) where
  unfoldable pub generate_merkle_proof :
      StateTransition C → ProofGenerationConfig → Result (Fault StateError) P
  generate_merkle_proof transition config = do
    lift (check_type merkle_type config.proof_type)
    source_header ← lift (
        block_header world.chain "source" "Source block not found"
          transition.pre_state.block_ref.hash)
    target_header ← lift (
        block_header world.chain "target" "Target block not found"
          transition.post_state.block_ref.hash)
    root ←
        ok_or (error (internal "Failed to get Merkle root"))
          (st.merkle_root (merkle_leaves (or_empty transition.transition_proof)))
    finish_proof st world config transition merkle_type root
        (merkle_metadata (summary st source_header) (summary st target_header) (st.hex_encode root))

  abbrev pub merkle_generator : ProofGenerator C P
  merkle_generator = record {
    generate_proof = generate_merkle_proof;
    supported_types = merkle_type ∷ [];
  }
