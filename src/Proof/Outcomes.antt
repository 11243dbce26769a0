-- ===== src/Proof/Outcomes.antt =====
-- When the two generators return a proof.
use frost_substrate.Prelude.{
  error, lift, map_err, String, ◌%◌, ◌^◌, ◌≤◌, ◌≡◌, ◌≢◌, refl, false, none, some, Bytes, length,
  replicate, ltb, arith, ok, err, Bool-cases, inl, inr, >>=-eq-ok, map_err-eq-ok, ok_or-eq-ok,
  ok_or,
}
use frost_substrate.External.Chain.{Header, Chain, AuthorityList}
use frost_substrate.External.Frost.{ProofType, signature, proof_type_eq, proof_type_eq_iff}
use frost_substrate.External.State.{
  internal, StateTransition, ProofMetadata, ProofData, States, IsStates,
}
use frost_substrate.Proof.{
  expiry, contains, ProofGenerationConfig, ProofGenerator, Surroundings, check_type, block_header,
  finish_proof,
}
use frost_substrate.Proof.Merkle.{
  leaves_from, merkle_leaves, or_empty, merkle_type, generate_merkle_proof, merkle_generator,
}
use frost_substrate.Proof.Bls.{bls_signature, generate_bls_proof, bls_generator}

pub block_header-eq-ok :
    (chain : Chain) (which missing : String) (hash : Bytes) {h : Header}
    → block_header chain which missing hash ≡ ok h
    → chain.header hash ≡ ok (some h)
unfolding block_header
block_header-eq-ok chain which missing hash e = ground arith

pub check_type-eq-ok :
    (wanted given : ProofType) {u : Unit {0}} → check_type wanted given ≡ ok u → given ≡ wanted
check_type-eq-ok wanted given e = ground (arith, proof_type_eq_iff given wanted)

module _ {C P : Type 0} (st : States C P) (world : Surroundings) where
  -- The data of a finished proof, with its encoding inside the limit as a u32.
  pub record IsFinished (config : ProofGenerationConfig) (transition : StateTransition C)
      (t : ProofType) (content : Bytes) (p : P) : Type 0 where
    pub proof_data : ProofData
    pub encoded : Bytes
    pub made : p ≡ st.new_proof transition proof_data
    pub type_eq : proof_data.proof_type ≡ t
    pub content_eq : proof_data.content ≡ content
    pub encodes : st.to_vec proof_data ≡ ok encoded
    pub fits : length encoded % 2 ^ 32 ≤ config.max_proof_size

  finish_proof-IsFinished :
      (config : ProofGenerationConfig) (transition : StateTransition C) (t : ProofType)
      (content : Bytes) (json : ProofMetadata) {p : P}
      → finish_proof st world config transition t content json ≡ ok p
      → IsFinished config transition t content p
  unfolding finish_proof
  finish_proof-IsFinished config transition t content json e =
      let (metadata, serialized, e1) = >>=-eq-ok (map_err _ (st.to_value json)) _ e in
      let (expires_at, in_range, e2) = >>=-eq-ok (expiry world config.proof_ttl) _ e1 in
      let proof_data : ProofData = record {
        proof_type = t;
        content = content;
        metadata = some metadata;
        generated_at = world.now;
        expires_at = some expires_at;
        version = 1;
      } in
      let (encoded, encodes, e3) = >>=-eq-ok (map_err _ (st.to_vec proof_data)) _ e2 in
      elim (Bool-cases (ltb config.max_proof_size (length encoded % 2 ^ 32))) [
        | inl large ↦ cc (rw large at e3)
        | inr small ↦ record {
          proof_data = proof_data;
          encoded = encoded;
          made = cc (rw small at e3);
          type_eq = refl;
          content_eq = refl;
          encodes = map_err-eq-ok _ _ encodes;
          fits = ground arith;
        }
      ]

  -- What a Merkle proof rests on.
  pub record IsMerkleProof (transition : StateTransition C) (config : ProofGenerationConfig) (p : P)
      : Type 0 where
    pub wanted : config.proof_type ≡ merkle_type
    pub source : Header
    pub target : Header
    pub source_found : world.chain.header transition.pre_state.block_ref.hash ≡ ok (some source)
    pub target_found : world.chain.header transition.post_state.block_ref.hash ≡ ok (some target)
    pub root : Bytes
    pub rooted : st.merkle_root (merkle_leaves (or_empty transition.transition_proof)) ≡ some root
    pub finished : IsFinished config transition merkle_type root p

  -- A Merkle proof comes only for the Merkle type, between two blocks that the chain has, and for state
  -- data whose leaves have a root. It is made of the transition and of data that bears the Merkle type
  -- and that root, and the length of its encoding, modulo 2 ^ 32, is within the limit.
  pub generate_merkle_proof-IsMerkleProof :
      (transition : StateTransition C) (config : ProofGenerationConfig) (p : P)
      → generate_merkle_proof st world transition config ≡ ok p
      → IsMerkleProof transition config p
  unfolding generate_merkle_proof
  generate_merkle_proof-IsMerkleProof transition config p e =
      let (u, checked, e1) = >>=-eq-ok (lift (check_type merkle_type config.proof_type)) _ e in
      let (source, found, e2) =
        >>=-eq-ok
          (lift (
            block_header world.chain "source" "Source block not found"
              transition.pre_state.block_ref.hash))
          _ e1 in
      let (target, found', e3) =
        >>=-eq-ok
          (lift (
            block_header world.chain "target" "Target block not found"
              transition.post_state.block_ref.hash))
          _ e2 in
      let (root, rooted, e4) =
        >>=-eq-ok (ok_or _ (st.merkle_root (merkle_leaves (or_empty transition.transition_proof))))
          _ e3 in
      record {
        wanted = check_type-eq-ok merkle_type config.proof_type (map_err-eq-ok _ _ checked);
        source = source;
        target = target;
        source_found = block_header-eq-ok _ _ _ _ (map_err-eq-ok _ _ found);
        target_found = block_header-eq-ok _ _ _ _ (map_err-eq-ok _ _ found');
        root = root;
        rooted = ok_or-eq-ok _ _ rooted;
        finished = finish_proof-IsFinished config transition merkle_type root _ e4;
      }

  -- A transition without state data has no Merkle proof, under any configuration and on any chain.
  pub generate_merkle_proof_without_data :
      IsStates C P st
      → (transition : StateTransition C) (config : ProofGenerationConfig) (p : P)
      → transition.transition_proof ≡ none
      → generate_merkle_proof st world transition config ≢ ok p
  unfolding leaves_from
  generate_merkle_proof_without_data laws transition config p bare e =
      let i = generate_merkle_proof-IsMerkleProof transition config p e in
      cc (laws.root_empty, rw bare at i.rooted)

  -- A signature proof comes only for the signature type and between two blocks that the chain has, and
  -- its signature is the same 96 zeros for every transition and every authority set.
  pub generate_bls_proof_placeholder :
      (authority_set : AuthorityList) (transition : StateTransition C)
      (config : ProofGenerationConfig) (p : P)
      → generate_bls_proof st world authority_set transition config ≡ ok p
      → (config.proof_type ≡ signature)
        × ((source : Header) × (world.chain.header transition.pre_state.block_ref.hash
              ≡ ok (some source)))
        × ((target : Header) × (world.chain.header transition.post_state.block_ref.hash
              ≡ ok (some target)))
        × IsFinished config transition signature (replicate 96 0) p
  unfolding generate_bls_proof
  generate_bls_proof_placeholder authority_set transition config p e =
      let (u, checked, e1) = >>=-eq-ok (lift (check_type signature config.proof_type)) _ e in
      let (source, found, e2) =
        >>=-eq-ok
          (lift (
            block_header world.chain "source" "Source block not found"
              transition.pre_state.block_ref.hash))
          _ e1 in
      let (target, found', e3) =
        >>=-eq-ok
          (lift (
            block_header world.chain "target" "Target block not found"
              transition.post_state.block_ref.hash))
          _ e2 in
      (
        check_type-eq-ok signature config.proof_type (map_err-eq-ok _ _ checked),
        (source, block_header-eq-ok _ _ _ _ (map_err-eq-ok _ _ found)),
        (target, block_header-eq-ok _ _ _ _ (map_err-eq-ok _ _ found')),
        finish_proof-IsFinished config transition signature bls_signature _ e3,
      )

-- A generator refuses whatever type it does not list.
abbrev pub RefusesOthers : {C P : Type 0} → ProofGenerator C P → Type 0
RefusesOthers {C} gen =
    (transition : StateTransition C) (config : ProofGenerationConfig)
    → contains gen.supported_types config.proof_type ≡ false
    → gen.generate_proof transition config ≡ err (error (internal "Unsupported proof type"))

-- Both generators refuse every proof type that their list of supported types does not hold, and say so.
pub generators-RefusesOthers :
    {C P : Type 0} (st : States C P) (world : Surroundings) (authority_set : AuthorityList)
    → RefusesOthers (merkle_generator st world)
      × RefusesOthers (bls_generator st world authority_set)
unfolding generate_merkle_proof generate_bls_proof
generators-RefusesOthers st world authority_set = (
  λ transition config other.
      let refused : proof_type_eq config.proof_type merkle_type ≡ false = ground (
        arith,
        proof_type_eq_iff config.proof_type merkle_type,
        proof_type_eq_iff merkle_type config.proof_type,
      ) in
      rw refused,
  λ transition config other.
      let refused : proof_type_eq config.proof_type signature ≡ false = ground (
        arith,
        proof_type_eq_iff config.proof_type signature,
        proof_type_eq_iff signature config.proof_type,
      ) in
      rw refused,
)
