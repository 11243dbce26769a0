-- ===== src/Verification/Registry.antt =====
-- How the registry chooses, and how it meets the generators.
use frost_substrate.Prelude.{◌≡◌, refl, true, false, List, [], ◌∷◌, ◌++◌, ok, err, All}
use frost_substrate.External.Frost.{custom}
use frost_substrate.External.State.{internal, StateTransition, States, IsStates}
use frost_substrate.Proof.{contains, ProofGenerationConfig, Surroundings}
use frost_substrate.Proof.Merkle.{generate_merkle_proof}
use frost_substrate.Proof.Outcomes.{generate_merkle_proof-IsMerkleProof}
use frost_substrate.Verification.{
  ProofVerifier, VerificationRegistry, verify_registered, merkle_verifier, bls_verifier,
  new_registry, register_verifier, verify_with,
}

module _ {C P Q : Type 0} (st : States C P) (proof : P) (params : Q) where
  -- No verifier of the list supports the type of the proof.
  abbrev pub NoneSupports : List (ProofVerifier P Q) → Type 0
  NoneSupports = All λ v. contains v.supported_types (st.proof_type_of proof) ≡ false

  -- The first verifier that supports the type decides: those before it that do not, and all behind it,
  -- have no say. If none supports it, the registry fails.
  pub verify_with_first :
      (before behind : List (ProofVerifier P Q)) (v : ProofVerifier P Q)
      → NoneSupports before
      → (verify_with st before proof params ≡ err (internal "No suitable verifier found"))
        × (contains v.supported_types (st.proof_type_of proof) ≡ true
            → verify_with st (before ++ v ∷ behind) proof params ≡ v.verify_proof proof params)
  unfolding verify_with
  verify_with_first [] behind v none_before = (refl, λ h. rw h)
  verify_with_first (u ∷ before) behind v (skip, rest) =
      rw skip (verify_with_first before behind v rest)

  -- A verifier that is registered is asked only where none before it supports the type.
  pub verify_registered-register_verifier :
      (registry : VerificationRegistry P Q) (v : ProofVerifier P Q)
      → NoneSupports registry.verifiers
      → contains v.supported_types (st.proof_type_of proof) ≡ true
      → verify_registered st (register_verifier v registry) proof params
        ≡ v.verify_proof proof params
  unfolding register_verifier
  verify_registered-register_verifier registry v none_before h =
      (verify_with_first registry.verifiers [] v none_before).1 h

module _ {P Q : Type 0} where
  -- The registry of the two verifiers of this repository.
  abbrev pub standard_registry : VerificationRegistry P Q
  standard_registry =
      register_verifier bls_verifier (register_verifier merkle_verifier new_registry)

-- The Merkle generator and the Merkle verifier do not fit together: a proof that the generator returns
-- finds no verifier in the registry of the two verifiers.
pub verify_generated_merkle_proof :
    {C P Q : Type 0} (st : States C P) (world : Surroundings) (transition : StateTransition C)
    (config : ProofGenerationConfig) (proof : P) (params : Q)
    → IsStates C P st
    → generate_merkle_proof st world transition config ≡ ok proof
    → verify_registered st standard_registry proof params
      ≡ err (internal "No suitable verifier found")
unfolding register_verifier
verify_generated_merkle_proof st world transition config proof params laws e =
    let i = (generate_merkle_proof-IsMerkleProof st world transition config proof e).finished in
    let type_eq : st.proof_type_of proof ≡ custom "Merkle" =
      cc (i.made, i.type_eq, laws.type_new_proof transition i.proof_data) in
    (verify_with_first st proof params (merkle_verifier ∷ bls_verifier ∷ []) [] merkle_verifier
      (rw type_eq refl, (rw type_eq refl, tt))).0
