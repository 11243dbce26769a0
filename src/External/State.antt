-- ===== src/External/State.antt =====
-- frost_protocol's state types, with the fields that the source fills in, and what the code calls on
-- them: the constructors and codecs of frost_protocol, serde_json, hex and rs_merkle.
use frost_substrate.Prelude.{ℕ, String, Bytes, Option, none, List, [], Result, ◌≡◌}
use frost_substrate.External.Frost.{BlockRef, ProofType}

pub data StateError : Type 0 where
  internal : String → StateError

pub record StateRoot (C : Type 0) : Type 0 where
  pub block_ref : BlockRef C
  pub root_hash : Bytes

-- `chain_specific` is the JSON object of the three names.
pub record TransitionMetadata : Type 0 where
  pub timestamp : ℕ
  pub version : ℕ
  pub proof_type : ProofType
  pub module_name : String
  pub function_name : String
  pub target_chain : String

pub record StateTransition (C : Type 0) : Type 0 where
  pub chain_id : C
  pub block_height : ℕ
  pub pre_state : StateRoot C
  pub post_state : StateRoot C
  pub transition_proof : Option Bytes
  pub metadata : TransitionMetadata

pub record BlockSummary : Type 0 where
  pub number : ℕ
  pub hash : String
  pub parent_hash : String

-- The two JSON objects that the generators write.
pub data ProofMetadata : Type 0 where
  merkle_metadata : (source target : BlockSummary) → (merkle_root : String) → ProofMetadata
  bls_metadata :
      (validator_set : List (String × ℕ)) → (source target : BlockSummary) → ProofMetadata

-- Times are in seconds.
pub record ProofData : Type 0 where
  pub proof_type : ProofType
  pub content : Bytes
  pub metadata : Option ProofMetadata
  pub generated_at : ℕ
  pub expires_at : Option ℕ
  pub version : ℕ

pub record States (C P : Type 0) : Type 0 where
  pub default_block_ref : BlockRef C
  pub default_state_root : StateRoot C
  pub new_proof : StateTransition C → ProofData → P
  pub proof_type_of : P → ProofType
  pub encode_proof : P → Bytes
  -- `String::from_utf8_lossy` and `hex::encode`.
  pub from_utf8_lossy : Bytes → String
  pub hex_encode : Bytes → String
  -- `{}` of a size.
  pub display_size : ℕ → String
  -- `serde_json::to_value` and `to_vec`.
  pub to_value : ProofMetadata → Result String ProofMetadata
  pub to_vec : ProofData → Result String Bytes
  -- `MerkleTree::from_leaves(..).root()` over SHA-256.
  pub merkle_root : List Bytes → Option Bytes

-- What the documentation says: a proof has the type of its data, and a tree with no leaf has no root.
pub record IsStates (C P : Type 0) (st : States C P) : Type 0 where
  pub type_new_proof :
      (t : StateTransition C) (d : ProofData) → st.proof_type_of (st.new_proof t d) ≡ d.proof_type
  pub root_empty : st.merkle_root [] ≡ none
