-- ===== src/Proof/Types.antt =====
-- The types of the proofs that the generators of src/proof/generator.rs return.
use frost_substrate.Prelude.{◌≡◌, [], ◌∷◌, refl, sym, ap, ◌∙◌, true, ok}
use frost_substrate.External.Chain.{AuthorityList}
use frost_substrate.External.Frost.{ProofType, signature, proof_type_eq_iff}
use frost_substrate.External.State.{StateTransition, States, IsStates}
use frost_substrate.Proof.{ProofGenerationConfig, ProofGenerator, Surroundings, contains}
use frost_substrate.Proof.Merkle.{merkle_type, merkle_generator}
use frost_substrate.Proof.Bls.{bls_generator}
use frost_substrate.Proof.Outcomes.{
  IsFinished, generate_merkle_proof-IsMerkleProof, generate_bls_proof_placeholder,
}

module _ {C P : Type 0} (st : States C P) where
  -- One of the two generators of the repository, on some chain at some time.
  pub data Offered : ProofGenerator C P → Type 0 where
    merkle : (world : Surroundings) → Offered (merkle_generator st world)
    bls :
        (world : Surroundings) (authority_set : AuthorityList)
        → Offered (bls_generator st world authority_set)

  type_of_finished :
      IsStates C P st
      → (world : Surroundings) (config : ProofGenerationConfig) (transition : StateTransition C)
        (t : ProofType) {content : _} (p : P)
      → IsFinished st world config transition t content p
      → st.proof_type_of p ≡ t
  type_of_finished laws world config transition t p i =
      ap st.proof_type_of i.made ∙ laws.type_new_proof transition i.proof_data ∙ i.type_eq

  contains-one : (t : ProofType) → contains (t ∷ []) t ≡ true
  contains-one t = rw ((proof_type_eq_iff t t).1 refl)

  -- A proof that a generator of the repository returns is of the type that was asked for, and that type
  -- is one that the generator lists as supported.
  pub generated_type :
      IsStates C P st
      → (gen : ProofGenerator C P) (transition : StateTransition C) (config : ProofGenerationConfig)
        (p : P)
      → Offered gen
      → gen.generate_proof transition config ≡ ok p
      → (st.proof_type_of p ≡ config.proof_type)
        × (contains gen.supported_types (st.proof_type_of p) ≡ true)
  generated_type laws gen transition config p (merkle world) e =
      let i = generate_merkle_proof-IsMerkleProof st world transition config p e in
      let t = type_of_finished laws world config transition merkle_type p i.finished in
      (t ∙ sym i.wanted, ap (contains (merkle_type ∷ [])) t ∙ contains-one merkle_type)
  generated_type laws gen transition config p (bls world authority_set) e =
      let (wanted, source, target, finished) =
        generate_bls_proof_placeholder st world authority_set transition config p e in
      let t = type_of_finished laws world config transition signature p finished in
      (t ∙ sym wanted, ap (contains (signature ∷ [])) t ∙ contains-one signature)
