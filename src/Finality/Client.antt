-- ===== src/Finality/Client.antt =====
-- src/finality/mod.rs: `SubstrateVerificationClient`, its construction and its authority set. The
-- reads of the chain stand in the modules below. `client` is the `Chain` that a call is given; the
-- gauge is the number that the client last set.
pub mod Justification
pub mod Status
pub mod Cache
pub mod Queries
pub mod Confidence
pub mod Weights
pub mod Updates
pub mod Decisions
pub mod Head
pub mod CacheLaws
pub mod CacheEntries
pub mod Staleness
pub mod Tasks
pub mod Races
pub mod Conservative
pub mod Repeats
pub mod Alone
pub mod Ballots
pub mod Counters
use frost_substrate.Prelude.{
  ℕ, String, Bool, Option, some, List, [], ◌∷◌, length, format, Result, ok, err, map_err, ok_or,
  ◌>>=◌, ◌>>◌,
}
use frost_substrate.External.Chain.{Hash, AuthorityList, Chain}
use frost_substrate.External.Frost.{Frost}
use frost_substrate.External.Grandpa.{Grandpa}
use frost_substrate.Finality.Config.{chain_id_text, ChainConfig, GrandpaVerificationParams}
use frost_substrate.Finality.Errors.{
  GrandpaFinalityVerificationError, chain_error, authority_set_error,
}

pub record FinalityStatus (F : Type 0) : Type 0 where
  pub block_number : ℕ
  pub confirmations : ℕ
  pub has_justification : Bool
  pub is_finalized : Bool
  pub participation_rate : F

-- A cached status with the `Instant` of its entry, in nanoseconds.
pub record CacheEntry (F : Type 0) : Type 0 where
  pub status : FinalityStatus F
  pub timestamp : ℕ

pub record SubstrateVerificationClient (V F : Type 0) : Type 0 where
  pub voter_set : V
  pub params : GrandpaVerificationParams F
  pub chain_config : ChainConfig
  pub finality_cache : List (Hash × CacheEntry F)
  pub validators_gauge : ℕ

module _ {V F : Type 0} where
  -- `gauge` is what the process-wide gauge shows; `new` does not set it.
  unfoldable pub new_client :
      V → GrandpaVerificationParams F → ChainConfig → (gauge : ℕ) → SubstrateVerificationClient V F
  new_client voter_set params chain_config gauge = record {
    voter_set = voter_set;
    params = params;
    chain_config = chain_config;
    finality_cache = [];
    validators_gauge = gauge;
  }

module _ {V F : Type 0} (g : Grandpa V) (chain : Chain) where
  unfoldable pub new_with_runtime_authorities :
      GrandpaVerificationParams F
      → ChainConfig
      → (gauge : ℕ) → Result GrandpaFinalityVerificationError (SubstrateVerificationClient V F)
  unfolding new_client
  new_with_runtime_authorities params chain_config gauge = do
    authorities ←
        map_err (λ e. chain_error (format ("Failed to get GRANDPA authorities: " ∷ e ∷ [])))
          (chain.grandpa_authorities chain.info.best_hash)
    voter_set ←
        ok_or (authority_set_error "Failed to create voter set from authorities")
          (g.voter_set_new authorities)
    ok (new_client voter_set params chain_config gauge)

module _ {V : Type 0} (g : Grandpa V) (chain : Chain) where
  -- `DefaultHasher` over the list of the best block stands in for the set id.
  unfoldable pub get_current_set_id : Result GrandpaFinalityVerificationError ℕ
  get_current_set_id = do
    authorities ←
        map_err (λ e. chain_error (format ("Failed to get current set ID: " ∷ e ∷ [])))
          (chain.grandpa_authorities chain.info.best_hash)
    ok (g.hash_authorities authorities)

module _ {V F : Type 0} (g : Grandpa V) where
  abbrev replace_voter_set :
      AuthorityList
      → SubstrateVerificationClient V F
      → Result GrandpaFinalityVerificationError (SubstrateVerificationClient V F)
  replace_voter_set authorities client = do
    voter_set ←
        ok_or (authority_set_error "Failed to create voter set") (g.voter_set_new authorities)
    ok (record client { voter_set = voter_set })

  -- The result is the new state of the client; an error leaves it as it was.
  unfoldable pub handle_authority_set_update :
      AuthorityList
      → (set_id : ℕ) → SubstrateVerificationClient V F
      → Result GrandpaFinalityVerificationError (SubstrateVerificationClient V F)
  handle_authority_set_update new_set set_id client = replace_voter_set new_set client

  unfoldable pub update_authorities_from_runtime :
      {C : Type 0}
      → Frost C
      → Chain
      → Hash
      → SubstrateVerificationClient V F
      → Result GrandpaFinalityVerificationError (SubstrateVerificationClient V F)
  update_authorities_from_runtime frost chain block_hash client = do
    authorities ←
        map_err
          (λ e. chain_error (
            format (
              "Failed to get authorities at block "
              ∷ frost.display_hash block_hash
              ∷ ": "
              ∷ e
              ∷ [])))
          (chain.grandpa_authorities block_hash)
    updated ← replace_voter_set authorities client
    ok (record updated { validators_gauge = length authorities })

-- `GrandpaFinalityProvider`.
abbrev pub get_voter_set : {V F : Type 0} → SubstrateVerificationClient V F → V
get_voter_set client = client.voter_set

abbrev pub get_verification_params :
    {V F : Type 0} → SubstrateVerificationClient V F → GrandpaVerificationParams F
get_verification_params client = client.params

-- The private method of the client, a second copy of `ChainConfig::get_chain_id`.
abbrev client_chain_id : {V F : Type 0} → SubstrateVerificationClient V F → String
client_chain_id client = chain_id_text client.chain_config.chain_id client.chain_config.network_type

-- Nothing makes one.
record VotingRoundInfo : Type 0 where
  round : ℕ
  set_id : ℕ
  target_hash : Hash
  target_number : ℕ
  precommit_count : ℕ
  total_weight : ℕ
  valid_weight : ℕ
