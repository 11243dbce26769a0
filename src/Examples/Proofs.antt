-- ===== src/Examples/Proofs.antt =====
-- A transition between two blocks of the chain, its proofs and its leaves.
use frost_substrate.Prelude.{
  panic, ◌^◌, true, ◌↔◌, Option, ℕ, ◌+◌, ◌≡◌, refl, some, none, [], ◌∷◌, Bytes, replicate, length,
  take, ok, err,
}
use frost_substrate.Examples.World.{states, states-IsStates, chain_at, block_hash}
use frost_substrate.External.Frost.{signature}
use frost_substrate.External.State.{
  bls_metadata, merkle_metadata, internal, StateTransition, StateRoot, ProofData, BlockSummary,
}
use frost_substrate.Proof.{
  contains, ProofGenerationConfig, config_default, Surroundings, block_header, finish_proof,
}
use frost_substrate.Proof.Merkle.{leaves_from, merkle_leaves, merkle_type, generate_merkle_proof}
use frost_substrate.Proof.Expiry.{IsBehindClock, generate_merkle_proof_panics_iff}
use frost_substrate.Proof.Exactness.{IsMerkleProofOf, generate_merkle_proof_iff}
use frost_substrate.Proof.Bls.{bls_generator, generate_bls_proof}
use frost_substrate.Proof.Types.{bls, generated_type}
use frost_substrate.Proof.Leaves.{take-merkle_leaves, joined}
use frost_substrate.Verification.{verify_registered}
use frost_substrate.Verification.Registry.{standard_registry, verify_generated_merkle_proof}

abbrev world : Surroundings
world = record { chain = chain_at 20 12; now = 1; later = 2; clock_end = 2 ^ 62 }

abbrev root : StateRoot ℕ
root = record {
  block_ref = record { hash = block_hash; number = 10; chain_id = 0 };
  root_hash = [];
}

abbrev transition_of : Option Bytes → StateTransition ℕ
transition_of data_bytes = record {
  chain_id = 0;
  block_height = 10;
  pre_state = root;
  post_state = root;
  transition_proof = data_bytes;
  metadata = record {
    timestamp = 0;
    version = 1;
    proof_type = merkle_type;
    module_name = "m";
    function_name = "f";
    target_chain = "c";
  };
}

abbrev summary_of_block : BlockSummary
summary_of_block = record { number = 10; hash = "hex"; parent_hash = "hex" }

abbrev two_leaves : Bytes
two_leaves = replicate 40 3

abbrev merkle_proof : ProofData
merkle_proof = record {
  proof_type = merkle_type;
  content = replicate 32 3;
  metadata = some (merkle_metadata summary_of_block summary_of_block "hex");
  generated_at = 1;
  expires_at = some (2 + 86400);
  version = 1;
}

merkle_proof_made :
    generate_merkle_proof states world (transition_of (some two_leaves)) config_default
    ≡ ok merkle_proof
unfolding generate_merkle_proof block_header leaves_from finish_proof
merkle_proof_made = refl

abbrev bls_config : ProofGenerationConfig
bls_config = record config_default { proof_type = signature }

abbrev bls_proof : ProofData
bls_proof = record {
  proof_type = signature;
  content = replicate 96 0;
  metadata = some (bls_metadata (("hex", 5) ∷ []) summary_of_block summary_of_block);
  generated_at = 1;
  expires_at = some (2 + 86400);
  version = 1;
}

bls_proof_made :
    generate_bls_proof states world ((1 ∷ [], 5) ∷ []) (transition_of none) bls_config
    ≡ ok bls_proof
unfolding generate_bls_proof block_header finish_proof
bls_proof_made = refl

take-merkle_leaves_example :
    take (length two_leaves) (joined (merkle_leaves two_leaves)) ≡ two_leaves
take-merkle_leaves_example = take-merkle_leaves two_leaves

verify_generated_merkle_proof_example :
    verify_registered {Q = ℕ} states standard_registry merkle_proof 0
    ≡ err (internal "No suitable verifier found")
verify_generated_merkle_proof_example =
    verify_generated_merkle_proof states world (transition_of (some two_leaves)) config_default
      merkle_proof 0 states-IsStates merkle_proof_made

generate_merkle_proof_iff_example :
    (generate_merkle_proof states world (transition_of (some two_leaves)) config_default
      ≡ ok merkle_proof)
    ↔ IsMerkleProofOf states world config_default (transition_of (some two_leaves)) merkle_proof
generate_merkle_proof_iff_example =
    generate_merkle_proof_iff states world config_default (transition_of (some two_leaves))
      merkle_proof

generated_type_example :
    (states.proof_type_of bls_proof ≡ signature)
    × (contains (signature ∷ []) (states.proof_type_of bls_proof) ≡ true)
generated_type_example =
    generated_type states states-IsStates (bls_generator states world ((1 ∷ [], 5) ∷ []))
      (transition_of none) bls_config bls_proof (bls world ((1 ∷ [], 5) ∷ [])) bls_proof_made

-- A time to live of 2 ^ 62 seconds.
abbrev endless : ProofGenerationConfig
endless = record config_default { proof_ttl = 2 ^ 62 }

generate_merkle_proof_panics_iff_example :
    (generate_merkle_proof states world (transition_of (some two_leaves)) endless ≡ err panic)
    ↔ IsBehindClock states world endless (transition_of (some two_leaves))
generate_merkle_proof_panics_iff_example =
    generate_merkle_proof_panics_iff states world endless (transition_of (some two_leaves))

endless_panics :
    generate_merkle_proof states world (transition_of (some two_leaves)) endless ≡ err panic
unfolding generate_merkle_proof block_header leaves_from finish_proof
endless_panics = refl
