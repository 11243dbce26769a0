-- ===== src/Proof/Exactness.antt =====
-- Exactly when the Merkle generator returns which proof.
use frost_substrate.Prelude.{
  leb_iff, true, lift, leb, ℕ, String, ◌%◌, ◌^◌, ◌+◌, ◌≤◌, ◌≡◌, ◌↔◌, sym, ap, false, some, Bytes,
  length, ltb, arith, ok, ok_or, map_err, Bool-cases, inl, inr, >>=-eq-ok, map_err-eq-ok,
  ok_or-eq-ok,
}
use frost_substrate.External.Chain.{Header, Chain}
use frost_substrate.External.Frost.{ProofType, proof_type_eq_iff}
use frost_substrate.External.State.{
  merkle_metadata, StateTransition, ProofMetadata, ProofData, States,
}
use frost_substrate.Proof.{
  expiry, ProofGenerationConfig, Surroundings, check_type, block_header, finish_proof, summary,
}
use frost_substrate.Proof.Merkle.{merkle_leaves, or_empty, merkle_type, generate_merkle_proof}
use frost_substrate.Proof.Outcomes.{block_header-eq-ok, check_type-eq-ok}

pub block_header-found :
    (chain : Chain) (which missing : String) (hash : Bytes) (h : Header)
    → chain.header hash ≡ ok (some h)
    → block_header chain which missing hash ≡ ok h
unfolding block_header
block_header-found chain which missing hash h found = rw found

expiry-eq-ok :
    {E : Type 0} (world : Surroundings) (ttl : ℕ) {t : ℕ}
    → expiry {E = E} world ttl ≡ ok t
    → (world.later + ttl ≤ world.clock_end) × (t ≡ world.later + ttl)
expiry-eq-ok world ttl e = elim (Bool-cases (leb (world.later + ttl) world.clock_end)) [
  | inl inside ↦ ((leb_iff _ _).0 inside, cc (rw inside at e))
  | inr behind ↦ cc (rw behind at e)
]

module _ {C P : Type 0} (st : States C P) (world : Surroundings) (config : ProofGenerationConfig)
    (transition : StateTransition C) where
  abbrev pub proof_data_of : ProofType → Bytes → ProofMetadata → ProofData
  proof_data_of t content metadata = record {
    proof_type = t;
    content = content;
    metadata = some metadata;
    generated_at = world.now;
    expires_at = some (world.later + config.proof_ttl);
    version = 1;
  }

  -- The proof that a generator ends with: its JSON can be encoded, the time to live ends inside the range
  -- of the clock, its data can be encoded, the length of the
  -- encoding, modulo 2 ^ 32, is within the limit, and it is made of the transition and that data.
  pub record Ends (t : ProofType) (content : Bytes) (json : ProofMetadata) (p : P) : Type 0 where
    pub metadata : ProofMetadata
    pub serializes : st.to_value json ≡ ok metadata
    pub in_range : world.later + config.proof_ttl ≤ world.clock_end
    pub encoded : Bytes
    pub encodes : st.to_vec (proof_data_of t content metadata) ≡ ok encoded
    pub fits : length encoded % 2 ^ 32 ≤ config.max_proof_size
    pub made : p ≡ st.new_proof transition (proof_data_of t content metadata)

  finish_proof-Ends :
      (t : ProofType) (content : Bytes) (json : ProofMetadata) (p : P)
      → finish_proof st world config transition t content json ≡ ok p
      → Ends t content json p
  unfolding finish_proof
  finish_proof-Ends t content json p e =
      let (metadata, serialized, e1) = >>=-eq-ok (map_err _ (st.to_value json)) _ e in
      let (expires_at, counted, e2) = >>=-eq-ok (expiry world config.proof_ttl) _ e1 in
      let (in_range, sum) = expiry-eq-ok world config.proof_ttl counted in
      let (encoded, encodes, e3) =
        >>=-eq-ok (map_err _ (st.to_vec (proof_data_of t content metadata))) _ (rw sum at e2) in
      elim (Bool-cases (ltb config.max_proof_size (length encoded % 2 ^ 32))) [
        | inl large ↦ cc (rw large at e3)
        | inr small ↦ record {
          metadata = metadata;
          serializes = map_err-eq-ok _ _ serialized;
          in_range = in_range;
          encoded = encoded;
          encodes = map_err-eq-ok _ _ encodes;
          fits = ground arith;
          made = cc (rw small at e3);
        }
      ]

  Ends-finish_proof :
      (t : ProofType) (content : Bytes) (json : ProofMetadata) (p : P)
      → Ends t content json p
      → finish_proof st world config transition t content json ≡ ok p
  unfolding finish_proof
  Ends-finish_proof t content json p i =
      let fits = i.fits in
      let small : ltb config.max_proof_size (length i.encoded % 2 ^ 32) ≡ false = ground arith in
      let in_range : leb (world.later + config.proof_ttl) world.clock_end ≡ true =
        (leb_iff _ _).1 i.in_range in
      rw (i.serializes, in_range, i.encodes, small) (ap ok (sym i.made))

  -- What a Merkle proof is.
  pub record IsMerkleProofOf (p : P) : Type 0 where
    pub wanted : config.proof_type ≡ merkle_type
    pub source : Header
    pub source_found : world.chain.header transition.pre_state.block_ref.hash ≡ ok (some source)
    pub target : Header
    pub target_found : world.chain.header transition.post_state.block_ref.hash ≡ ok (some target)
    pub root : Bytes
    pub rooted : st.merkle_root (merkle_leaves (or_empty transition.transition_proof)) ≡ some root
    pub ends :
        Ends merkle_type root
          (merkle_metadata (summary st source) (summary st target) (st.hex_encode root))
          p

  generate_merkle_proof-IsMerkleProofOf :
      (p : P) → generate_merkle_proof st world transition config ≡ ok p → IsMerkleProofOf p
  unfolding generate_merkle_proof
  generate_merkle_proof-IsMerkleProofOf p e =
      let (u, checked, e1) = >>=-eq-ok (lift (check_type merkle_type config.proof_type)) _ e in
      let (source, found, e2) = >>=-eq-ok (lift (block_header world.chain _ _ _)) _ e1 in
      let (target, found', e3) = >>=-eq-ok (lift (block_header world.chain _ _ _)) _ e2 in
      let (root, rooted, e4) =
        >>=-eq-ok (ok_or _ (st.merkle_root (merkle_leaves (or_empty transition.transition_proof))))
          _ e3 in
      record {
        wanted = check_type-eq-ok merkle_type config.proof_type (map_err-eq-ok _ _ checked);
        source = source;
        source_found = block_header-eq-ok _ _ _ _ (map_err-eq-ok _ _ found);
        target = target;
        target_found = block_header-eq-ok _ _ _ _ (map_err-eq-ok _ _ found');
        root = root;
        rooted = ok_or-eq-ok _ _ rooted;
        ends = finish_proof-Ends merkle_type root _ p e4;
      }

  IsMerkleProofOf-generate_merkle_proof :
      (p : P) → IsMerkleProofOf p → generate_merkle_proof st world transition config ≡ ok p
  unfolding generate_merkle_proof
  IsMerkleProofOf-generate_merkle_proof p i =
      rw
        (
          (proof_type_eq_iff config.proof_type merkle_type).1 i.wanted,
          block_header-found world.chain "source" "Source block not found"
              transition.pre_state.block_ref.hash i.source i.source_found,
          block_header-found world.chain "target" "Target block not found"
              transition.post_state.block_ref.hash i.target i.target_found,
          i.rooted,
        )
        (Ends-finish_proof merkle_type i.root _ p i.ends)

  -- The Merkle generator returns a proof exactly for the Merkle type, between two blocks that the chain
  -- has, for state data whose leaves have a root, if its JSON and its data can be encoded, the time to
  -- live ends inside the range of the clock and the length of the encoding, modulo 2 ^ 32, is within the
  -- limit. The proof is that of the transition with data that bears the root, the two blocks, the time,
  -- the time to live and version 1.
  pub generate_merkle_proof_iff :
      (p : P) → (generate_merkle_proof st world transition config ≡ ok p) ↔ IsMerkleProofOf p
  generate_merkle_proof_iff p =
      (generate_merkle_proof-IsMerkleProofOf p, IsMerkleProofOf-generate_merkle_proof p)
