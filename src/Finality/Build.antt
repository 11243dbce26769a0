-- ===== src/Finality/Build.antt =====
-- src/finality/mod.rs: `GrandpaFinality`, how it is built and how its authorities change.
pub mod Laws
pub mod Changes
use frost_substrate.Prelude.{
  ℕ, String, Option, some, List, [], ◌∷◌, format, Result, ok, err, map_err, ok_or, Fault, expect,
  ◌>>=◌,
}
use frost_substrate.External.Chain.{AuthorityList, Chain}
use frost_substrate.External.Frost.{PredicateConfig}
use frost_substrate.External.Grandpa.{Grandpa}
use frost_substrate.Finality.Client.{
  SubstrateVerificationClient, new_with_runtime_authorities, handle_authority_set_update,
}
use frost_substrate.Finality.Config.{ChainConfig, GrandpaVerificationParams}
use frost_substrate.Finality.Errors.{
  GrandpaFinalityVerificationError, chain_error, authority_set_error,
}

-- What stands behind `dyn BaseFinalityVerificationClient`: this repository's client, which a downcast
-- finds, or another.
pub data DynClient (V F : Type 0) : Type 0 where
  substrate : SubstrateVerificationClient V F → DynClient V F
  foreign : DynClient V F

pub record GrandpaFinality (V F : Type 0) : Type 0 where
  pub config : PredicateConfig F
  pub verification_client : DynClient V F
  pub voter_set : V

module _ {V F : Type 0} (g : Grandpa V) where
  -- `expect("Valid authority set")`.
  unfoldable pub new_finality :
      {E : Type 0}
      → PredicateConfig F
      → DynClient V F
      → AuthorityList
      → Result (Fault E) (GrandpaFinality V F)
  new_finality config verification_client authorities = do
    voter_set ← expect (g.voter_set_new authorities)
    ok (record {
      config = config;
      verification_client = verification_client;
      voter_set = voter_set;
    })

  -- The client reads the authorities at one state of the chain, the predicate at a later one.
  unfoldable pub new_from_runtime :
      (chain later : Chain)
      → PredicateConfig F
      → GrandpaVerificationParams F
      → ChainConfig
      → (gauge : ℕ) → Result GrandpaFinalityVerificationError (GrandpaFinality V F)
  new_from_runtime chain later config params chain_config gauge = do
    client ← new_with_runtime_authorities g chain params chain_config gauge
    authorities ←
        map_err (λ e. chain_error (format ("Failed to get GRANDPA authorities: " ∷ e ∷ [])))
          (later.grandpa_authorities later.info.best_hash)
    voter_set ←
        ok_or (authority_set_error "Failed to create voter set") (g.voter_set_new authorities)
    ok (record { config = config; verification_client = substrate client; voter_set = voter_set })

  -- The new voter set is made and dropped here; the client makes it again for itself.
  abbrev pass_on :
      AuthorityList
      → ℕ
      → GrandpaFinality V F
      → DynClient V F
      → Result GrandpaFinalityVerificationError (GrandpaFinality V F)
  pass_on new_authorities set_id f foreign = ok f
  pass_on new_authorities set_id f (substrate client) = do
    updated ← handle_authority_set_update g new_authorities set_id client
    ok (record f { verification_client = substrate updated })

  unfoldable pub handle_authority_set_change :
      AuthorityList
      → ℕ
      → GrandpaFinality V F
      → Result GrandpaFinalityVerificationError (GrandpaFinality V F)
  handle_authority_set_change new_authorities set_id f = do
    new_voter_set ←
        ok_or (authority_set_error "Failed to create new voter set")
          (g.voter_set_new new_authorities)
    pass_on new_authorities set_id f f.verification_client
