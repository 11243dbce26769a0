-- ===== src/Observer/Transition.antt =====
-- src/wrapper_types.rs, and `generate_state_transition` of src/observer/mod.rs. A wrapper has its
-- content as its one field; `From` and `AsRef` take it out.
use frost_substrate.Prelude.{ℕ, none, Bytes, replicate, Result, ok, ◌>>=◌}
use frost_substrate.External.Frost.{BlockRef, basic}
use frost_substrate.External.State.{StateRoot, StateTransition, TransitionMetadata, States}
use frost_substrate.Finality.Client.Queries.{to_hash_array}
use frost_substrate.Observer.{ProtocolError, protocol_error, invalid_block_hash, WatchTarget}

pub record SsmpStateTransition (C : Type 0) : Type 0 where
  pub inner : StateTransition C

pub record SubstrateStateProof (P : Type 0) : Type 0 where
  pub inner : P

pub record SubstrateFrostMessage (M : Type 0) : Type 0 where
  pub inner : M

-- `From<SSMPStateTransition>` and `AsRef<StateTransition>`.
abbrev pub into_transition : {C : Type 0} → SsmpStateTransition C → StateTransition C
into_transition ssmp = ssmp.inner

abbrev as_transition : {C : Type 0} → SsmpStateTransition C → StateTransition C
as_transition ssmp = ssmp.inner

module _ {C P : Type 0} (st : States C P) where
  -- `now` is the wall clock in seconds.
  unfoldable pub new_ssmp_transition :
      (now : ℕ)
      → C
      → ℕ
      → (pre_state post_state : StateRoot C) → (module_name function_name target_chain : Bytes)
      → SsmpStateTransition C
  new_ssmp_transition now chain_id block_height pre_state post_state module_name function_name
        target_chain =
      let metadata : TransitionMetadata = record {
        timestamp = now;
        version = 0;
        proof_type = basic;
        module_name = st.from_utf8_lossy module_name;
        function_name = st.from_utf8_lossy function_name;
        target_chain = st.from_utf8_lossy target_chain;
      } in
      record {
        inner = record {
          chain_id = chain_id;
          block_height = block_height;
          pre_state = pre_state;
          post_state = post_state;
          transition_proof = none;
          metadata = metadata;
        };
      }

  unfoldable pub generate_state_transition :
      (now : ℕ) → BlockRef C → WatchTarget → Result (ProtocolError C) (SsmpStateTransition C)
  unfolding new_ssmp_transition
  generate_state_transition now block_ref target = do
    block_hash_bytes ← to_hash_array (protocol_error invalid_block_hash) block_ref.hash
    let pre_state : StateRoot C = record {
      block_ref = st.default_block_ref;
      root_hash = replicate 32 0;
    }
    ok (
        new_ssmp_transition now block_ref.chain_id block_ref.number pre_state st.default_state_root
          target.module_name target.function_name target.target_chain)
