-- ===== src/Finality/Client/Queries.antt =====
-- src/finality/mod.rs: the plain queries of `BaseFinalityVerificationClient`.
use frost_substrate.Prelude.{
  ℕ, min, Bool, true, false, Bytes, length, ◌==◌, if◌then◌else◌, Result, ok, err, map_err, ◌>>=◌,
}
use frost_substrate.External.Chain.{Hash, Chain}
use frost_substrate.External.Frost.{Frost, BlockRef, Block, FinalityVerificationError}
use frost_substrate.External.Grandpa.{Grandpa}
use frost_substrate.Finality.Client.Justification.{u64_max}
use frost_substrate.Finality.Client.Status.{require_header}
use frost_substrate.Finality.Config.{ChainConfig, get_chain_id}
use frost_substrate.Finality.Errors.{
  GrandpaFinalityVerificationError, invalid_input, to_verification_error,
}

-- `saturated_into::<u64>()` of a block number.
abbrev pub block_number_to_u64 : ℕ → ℕ
block_number_to_u64 n = min n u64_max

-- `saturated_from` a u64 into the block number type.
abbrev pub u64_to_block_number : {V : Type 0} → Grandpa V → ℕ → ℕ
u64_to_block_number g n = min n g.max_number

-- `as_ref().try_into::<[u8; 32]>()`.
abbrev pub to_hash_array : {E : Type 0} → E → Hash → Result E Hash
to_hash_array e hash = if length hash == 32 then ok hash else err e

pub record SubstrateBlockRef (C : Type 0) : Type 0 where
  pub inner : BlockRef C
  pub timestamp : ℕ

-- `From<SubstrateBlockRef> for FrostBlockRef`.
abbrev pub into_block_ref : {C : Type 0} → SubstrateBlockRef C → BlockRef C
into_block_ref block = block.inner

-- `AsRef<FrostBlockRef>`.
abbrev as_block_ref : {C : Type 0} → SubstrateBlockRef C → BlockRef C
as_block_ref block = block.inner

module _ {C : Type 0} (frost : Frost C) (chain : Chain) where
  -- The block that both `get_chain_head` methods make.
  unfoldable pub head_block : ChainConfig → Result GrandpaFinalityVerificationError (BlockRef C)
  unfolding get_chain_id
  head_block chain_config = do
    hash_array ← to_hash_array (invalid_input "Invalid hash length") chain.info.best_hash
    ok (record {
      hash = hash_array;
      number = block_number_to_u64 chain.info.best_number;
      chain_id = frost.chain_id_new (get_chain_id chain_config);
    })

  -- `now` is the wall clock in seconds.
  unfoldable pub get_chain_head_internal :
      ChainConfig → ℕ → Result GrandpaFinalityVerificationError (SubstrateBlockRef C)
  unfolding head_block
  get_chain_head_internal chain_config now = do
    head ← head_block chain_config
    ok (record { inner = head; timestamp = now })

  unfoldable pub get_chain_head : ChainConfig → Result FinalityVerificationError (BlockRef C)
  unfolding head_block
  get_chain_head chain_config = map_err to_verification_error (head_block chain_config)

  unfoldable pub get_block : BlockRef C → Result FinalityVerificationError Block
  unfolding require_header
  get_block block_ref = do
    header ← map_err to_verification_error (require_header frost chain block_ref.hash)
    ok (record { hash = block_ref.hash; number = block_ref.number })

  -- The state root is read and not used: any proof that is not empty passes.
  unfoldable pub verify_merkle_proof : Hash → Bytes → Result GrandpaFinalityVerificationError Bool
  unfolding require_header
  verify_merkle_proof block_hash proof = do
    header ← require_header frost chain block_hash
    ok (if length proof == 0 then false else true)

unfoldable pub get_latest_finalized_block : Chain → Result FinalityVerificationError ℕ
get_latest_finalized_block chain = ok (block_number_to_u64 chain.info.finalized_number)

module _ {C V : Type 0} (g : Grandpa V) (frost : Frost C) (chain : Chain) where
  unfoldable pub verify_block_hash : BlockRef C → Result FinalityVerificationError Bool
  unfolding require_header
  verify_block_hash block_ref = do
    header ← map_err to_verification_error (require_header frost chain block_ref.hash)
    ok (header.number == u64_to_block_number g block_ref.number)

  -- The two reads of the chain may be made of two states of it.
  unfoldable pub verify_block_inclusion :
      (later : Chain) → BlockRef C → Bytes → Result FinalityVerificationError Bool
  unfolding verify_block_hash verify_merkle_proof
  verify_block_inclusion later block_ref proof = do
    is_there ← verify_block_hash block_ref
    if is_there
        then map_err to_verification_error (verify_merkle_proof frost later block_ref.hash proof)
        else ok false
