-- ===== src/Proof/Bls.antt =====
-- src/proof/generator.rs: `BLSProofGenerator`. The concatenation `signature_data` is built there and
-- not used.
use frost_substrate.Prelude.{lift, Fault, [], ◌∷◌, map, Bytes, replicate, Result, ◌>>=◌, ◌>>◌}
use frost_substrate.External.Chain.{AuthorityList}
use frost_substrate.External.Frost.{signature}
use frost_substrate.External.State.{StateError, StateTransition, States, bls_metadata}
use frost_substrate.Proof.{
  ProofGenerationConfig, ProofGenerator, Surroundings, check_type, block_header, summary,
  finish_proof,
}

-- The placeholder, 96 zeros.
abbrev pub bls_signature : Bytes
bls_signature = replicate 96 0

module _ {C P : Type 0} (st : States C P) (world : Surroundings)
    (authority_set : AuthorityList) where
  unfoldable pub generate_bls_proof :
      StateTransition C → ProofGenerationConfig → Result (Fault StateError) P
  generate_bls_proof transition config = do
    lift (check_type signature config.proof_type)
    source_header ← lift (
        block_header world.chain "source" "Source block not found"
          transition.pre_state.block_ref.hash)
    target_header ← lift (
        block_header world.chain "target" "Target block not found"
          transition.post_state.block_ref.hash)
    finish_proof st world config transition signature bls_signature (
        bls_metadata (map (λ p. (st.hex_encode p.0, p.1)) authority_set) (summary st source_header)
          (summary st target_header))

  abbrev pub bls_generator : ProofGenerator C P
  bls_generator = record { generate_proof = generate_bls_proof; supported_types = signature ∷ [] }
