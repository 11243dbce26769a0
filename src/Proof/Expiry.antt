-- ===== src/Proof/Expiry.antt =====
-- When the Merkle generator of src/proof/generator.rs panics: at the sum of the time and the time to live.
use frost_substrate.Prelude.{
  ◌+◌, ◌%◌, ◌^◌, ◌<◌, ◌≡◌, ◌≢◌, ◌↔◌, refl, false, Option, none, some, Bytes, length, leb, ltb,
  arith, Result, ok, err, Fault, error, panic, lift, map_err, ok_or, ◌>>=◌, Bool-cases, inl, inr,
  map_err-eq-ok, ok_or-eq-ok,
}
use frost_substrate.External.Chain.{Header}
use frost_substrate.External.Frost.{ProofType, proof_type_eq_iff}
use frost_substrate.External.State.{merkle_metadata, StateTransition, ProofMetadata, States}
use frost_substrate.Proof.{
  ProofGenerationConfig, Surroundings, check_type, block_header, finish_proof, summary,
}
use frost_substrate.Proof.Exactness.{block_header-found}
use frost_substrate.Proof.Merkle.{merkle_leaves, or_empty, merkle_type, generate_merkle_proof}
use frost_substrate.Proof.Outcomes.{block_header-eq-ok, check_type-eq-ok}

-- A chain that panics behind a first step that does not had a successful first step.
>>=-eq-panic :
    {E A B : Type 0} (r : Result (Fault E) A) (f : A → Result (Fault E) B)
    → r ≢ err panic
    → (r >>= f) ≡ err panic
    → (a : A) × (r ≡ ok a) × (f a ≡ err panic)
>>=-eq-panic (ok a) f calm e = (a, refl, e)
>>=-eq-panic (err x) f calm e = absurd (calm (cc e))

only_errors :
    {E E' A : Type 0} (g : E → E') (r : Result E A) → map_err (λ e. error (g e)) r ≢ err panic
only_errors g (ok a) = λ h. cc h
only_errors g (err e) = λ h. cc h

ok_or-only_errors : {E A : Type 0} (e : E) (o : Option A) → ok_or (error e) o ≢ err panic
ok_or-only_errors e none = λ h. cc h
ok_or-only_errors e (some a) = λ h. cc h

module _ {C P : Type 0} (st : States C P) (world : Surroundings) (config : ProofGenerationConfig)
    (transition : StateTransition C) where
  -- What a panic rests on: all that comes before the sum succeeds, and the sum is behind the clock's end.
  pub record IsBehindClock : Type 0 where
    pub wanted : config.proof_type ≡ merkle_type
    pub source : Header
    pub source_found : world.chain.header transition.pre_state.block_ref.hash ≡ ok (some source)
    pub target : Header
    pub target_found : world.chain.header transition.post_state.block_ref.hash ≡ ok (some target)
    pub root : Bytes
    pub rooted : st.merkle_root (merkle_leaves (or_empty transition.transition_proof)) ≡ some root
    pub metadata : ProofMetadata
    pub serializes :
        st.to_value (merkle_metadata (summary st source) (summary st target) (st.hex_encode root))
        ≡ ok metadata
    pub behind : world.clock_end < world.later + config.proof_ttl

  finish_proof-eq-panic :
      (t : ProofType) (content : Bytes) (json : ProofMetadata)
      → finish_proof st world config transition t content json ≡ err panic
      → ((metadata : ProofMetadata) × (st.to_value json ≡ ok metadata))
        × (world.clock_end < world.later + config.proof_ttl)
  unfolding finish_proof
  finish_proof-eq-panic t content json e =
      let (metadata, serialized, e1) =
        >>=-eq-panic (map_err _ (st.to_value json)) _ (only_errors _ (st.to_value json)) e in
      elim (Bool-cases (leb (world.later + config.proof_ttl) world.clock_end)) [
        | inr behind ↦ ((metadata, map_err-eq-ok _ _ serialized), ground arith)
        | inl inside ↦
            let (encoded, encodes, e2) =
              >>=-eq-panic (map_err _ (st.to_vec _)) _ (only_errors _ (st.to_vec _))
                (rw inside at e1) in
            elim (Bool-cases (ltb config.max_proof_size (length encoded % 2 ^ 32))) [
              | inl large ↦ cc (rw large at e2)
              | inr small ↦ cc (rw small at e2)
            ]
      ]

  generate_merkle_proof-IsBehindClock :
      generate_merkle_proof st world transition config ≡ err panic → IsBehindClock
  unfolding generate_merkle_proof
  generate_merkle_proof-IsBehindClock e =
      let (u, checked, e1) =
        >>=-eq-panic (lift (check_type merkle_type config.proof_type)) _
          (only_errors (λ x. x) (check_type merkle_type config.proof_type)) e in
      let (source, found, e2) =
        >>=-eq-panic (lift (block_header world.chain _ _ _)) _
          (only_errors (λ x. x) (block_header world.chain _ _ _)) e1 in
      let (target, found', e3) =
        >>=-eq-panic (lift (block_header world.chain _ _ _)) _
          (only_errors (λ x. x) (block_header world.chain _ _ _)) e2 in
      let (root, rooted, e4) =
        >>=-eq-panic
          (ok_or _ (st.merkle_root (merkle_leaves (or_empty transition.transition_proof)))) _
          (ok_or-only_errors _ (st.merkle_root _)) e3 in
      let ((metadata, serializes), behind) = finish_proof-eq-panic merkle_type root _ e4 in
      record {
        wanted = check_type-eq-ok merkle_type config.proof_type (map_err-eq-ok _ _ checked);
        source = source;
        source_found = block_header-eq-ok _ _ _ _ (map_err-eq-ok _ _ found);
        target = target;
        target_found = block_header-eq-ok _ _ _ _ (map_err-eq-ok _ _ found');
        root = root;
        rooted = ok_or-eq-ok _ _ rooted;
        metadata = metadata;
        serializes = serializes;
        behind = behind;
      }

  IsBehindClock-generate_merkle_proof :
      IsBehindClock → generate_merkle_proof st world transition config ≡ err panic
  unfolding generate_merkle_proof finish_proof
  IsBehindClock-generate_merkle_proof i =
      let far = i.behind in
      let behind : leb (world.later + config.proof_ttl) world.clock_end ≡ false = ground arith in
      rw (
        (proof_type_eq_iff config.proof_type merkle_type).1 i.wanted,
        block_header-found world.chain "source" "Source block not found"
            transition.pre_state.block_ref.hash i.source i.source_found,
        block_header-found world.chain "target" "Target block not found"
            transition.post_state.block_ref.hash i.target i.target_found,
        i.rooted,
        i.serializes,
        behind,
      )

  -- The Merkle generator panics exactly when the time to live ends behind the range of the clock, the type
  -- that is asked for is the Merkle type, the chain has both blocks, the leaves of the state data have a
  -- root and the JSON can be made.
  pub generate_merkle_proof_panics_iff :
      (generate_merkle_proof st world transition config ≡ err panic) ↔ IsBehindClock
  generate_merkle_proof_panics_iff =
      (generate_merkle_proof-IsBehindClock, IsBehindClock-generate_merkle_proof)
