-- ===== src/Finality/Config.antt =====
-- src/finality/mod.rs: `ChainConfig`, `NetworkType` and `GrandpaVerificationParams`.
use frost_substrate.Prelude.{ℕ, ◌*◌, ◌^◌, String, format, [], ◌∷◌, Bool, true}
use frost_substrate.External.Float.{Float}

pub data NetworkType : Type 0 where
  mainnet : NetworkType
  testnet : String → NetworkType
  development : NetworkType

pub record ChainConfig : Type 0 where
  pub chain_id : String
  pub network_type : NetworkType
  pub authority_set_id : ℕ

abbrev pub chain_config_default : ChainConfig
chain_config_default = record {
  chain_id = "substrate-default";
  network_type = development;
  authority_set_id = 0;
}

abbrev pub chain_id_text : String → NetworkType → String
chain_id_text id mainnet = id
chain_id_text id (testnet name) = format (id ∷ "-testnet-" ∷ name ∷ [])
chain_id_text id development = format (id ∷ "-dev" ∷ [])

unfoldable pub get_chain_id : ChainConfig → String
get_chain_id config = chain_id_text config.chain_id config.network_type

-- Times are in nanoseconds.
abbrev pub from_secs : ℕ → ℕ
from_secs s = s * 10 ^ 9

pub record GrandpaVerificationParams (F : Type 0) : Type 0 where
  pub min_confirmations : ℕ
  pub min_participation : F
  pub max_fork_depth : ℕ
  pub timeout : ℕ
  pub set_id : ℕ
  pub strict_signature_verification : Bool

abbrev pub params_default : {F : Type 0} ⦃fl : Float F⦄ → GrandpaVerificationParams F
params_default ⦃fl⦄ = record {
  min_confirmations = 2;
  min_participation = fl.decimal 67 2;
  max_fork_depth = 50;
  timeout = from_secs 30;
  set_id = 0;
  strict_signature_verification = true;
}
