-- ===== src/Finality/Client/Status.antt =====
-- src/finality/mod.rs: `get_finality_status`.
use frost_substrate.Prelude.{
  ◌-◌, Bool, true, false, Option, none, some, List, [], ◌∷◌, Bytes, format, leb, Result, ok, err,
  map_err, ok_or, ◌>>=◌,
}
use frost_substrate.External.Chain.{Hash, Header, Chain}
use frost_substrate.External.Float.{Float}
use frost_substrate.External.Frost.{Frost}
use frost_substrate.External.Grandpa.{Grandpa}
use frost_substrate.Finality.Client.{SubstrateVerificationClient, FinalityStatus}
use frost_substrate.Finality.Client.Justification.{verify_justification}
use frost_substrate.Finality.Errors.{GrandpaFinalityVerificationError, chain_error, block_not_found}

abbrev pub is_some : Option Bytes → Bool
is_some none = false
is_some (some bytes) = true

abbrev pub grandpa_justification :
    {V : Type 0} → Grandpa V → Option (List (Bytes × Bytes)) → Option Bytes
grandpa_justification g none = none
grandpa_justification g (some all) = g.into_justification all

module _ {C : Type 0} (frost : Frost C) (chain : Chain) where
  -- `client.header(..)` with its two errors, as five of the methods call it.
  unfoldable pub require_header : Hash → Result GrandpaFinalityVerificationError Header
  require_header block_hash = do
    found ←
        map_err (λ e. chain_error (format ("Failed to get header: " ∷ e ∷ [])))
          (chain.header block_hash)
    ok_or (block_not_found (frost.debug_hash block_hash)) found

module _ {V F : Type 0} ⦃fl : Float F⦄ (g : Grandpa V) where
  -- The rate of a justification that decodes; any failure is logged and counts as 0.0.
  unfoldable pub justified_rate : SubstrateVerificationClient V F → Option Bytes → F
  unfolding verify_justification
  justified_rate client none = fl.decimal 0 0
  justified_rate client (some bytes) = elim (g.decode_justification bytes) [
    | err e ↦ fl.decimal 0 0
    | ok justification ↦ elim (verify_justification g client justification) [
      | ok (_, rate) ↦ rate
      | err e ↦ fl.decimal 0 0
    ]
  ]

module _ {C V F : Type 0} ⦃fl : Float F⦄ (g : Grandpa V) (frost : Frost C) (chain : Chain) where
  unfoldable pub get_finality_status :
      SubstrateVerificationClient V F
      → Hash
      → Result GrandpaFinalityVerificationError (FinalityStatus F)
  unfolding justified_rate require_header
  get_finality_status client block_hash = do
    header ← require_header frost chain block_hash
    found ←
        map_err (λ e. chain_error (format ("Failed to get justification: " ∷ e ∷ [])))
          (chain.justifications block_hash)
    let latest_finalized = chain.info.finalized_number
    let justification = grandpa_justification g found
    ok (record {
      block_number = header.number;
      confirmations = latest_finalized - header.number;
      has_justification = is_some justification;
      is_finalized = leb header.number latest_finalized;
      participation_rate = justified_rate g client justification;
    })
