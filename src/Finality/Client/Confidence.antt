-- ===== src/Finality/Client/Confidence.antt =====
-- src/finality/mod.rs: `get_finality_confidence` and `verify_chain_rules`.
use frost_substrate.Prelude.{
  ◌-◌, Bool, true, false, ◌&&◌, ltb, if◌then◌else◌, Result, ok, map_err, ◌>>=◌,
}
use frost_substrate.External.Chain.{Hash, Chain}
use frost_substrate.External.Float.{Float}
use frost_substrate.External.Frost.{Frost, BlockRef, ChainRules, FinalityVerificationError}
use frost_substrate.External.Grandpa.{Grandpa}
use frost_substrate.Finality.Client.{SubstrateVerificationClient, FinalityStatus}
use frost_substrate.Finality.Client.Queries.{block_number_to_u64, u64_to_block_number}
use frost_substrate.Finality.Client.Status.{get_finality_status}
use frost_substrate.Finality.Config.{GrandpaVerificationParams}
use frost_substrate.Finality.Errors.{consensus_error, to_string, to_verification_error}

module _ {F : Type 0} ⦃fl : Float F⦄ (params : GrandpaVerificationParams F) where
  unfoldable pub confirmation_confidence : FinalityStatus F → F
  confirmation_confidence status =
      fl.min
        (if ltb 0 params.min_confirmations
          then fl.div (fl.of_u64 (block_number_to_u64 status.confirmations))
              (fl.of_u64 params.min_confirmations)
          else fl.decimal 0 0)
        (fl.decimal 1 0)

  unfoldable pub participation_confidence : FinalityStatus F → F
  participation_confidence status =
      if status.has_justification
      then fl.min (fl.div status.participation_rate params.min_participation) (fl.decimal 1 0)
      else fl.decimal 0 0

  -- 40% confirmations, 40% participation, 20% base.
  unfoldable pub weighted_confidence : FinalityStatus F → F
  unfolding confirmation_confidence participation_confidence
  weighted_confidence status =
      fl.add
        (fl.add (fl.mul (confirmation_confidence status) (fl.decimal 4 1))
          (fl.mul (participation_confidence status) (fl.decimal 4 1)))
        (fl.decimal 2 1)

  unfoldable pub confidence_of : FinalityStatus F → F
  unfolding weighted_confidence
  confidence_of status =
      if status.is_finalized
      then fl.decimal 1 0
      else let confidence = weighted_confidence status in
        if status.is_finalized then confidence else fl.min confidence (fl.decimal 95 2)

module _ {V F : Type 0} ⦃fl : Float F⦄ (g : Grandpa V) (chain : Chain) where
  -- The three early returns of `verify_chain_rules`, in their order.
  unfoldable pub rules_hold : ChainRules F → FinalityStatus F → Bool
  rules_hold rules status =
      let fork_depth = chain.info.best_number - status.block_number in
      if ltb status.confirmations (u64_to_block_number g rules.min_confirmations)
      then false
      else if ltb (u64_to_block_number g rules.max_fork_depth) fork_depth
      then false
      else if status.has_justification && fl.lt status.participation_rate rules.min_participation
      then false
      else true

module _ {C V F : Type 0} ⦃fl : Float F⦄ (g : Grandpa V) (frost : Frost C) (chain : Chain) where
  abbrev status_or_error :
      SubstrateVerificationClient V F → Hash → Result FinalityVerificationError (FinalityStatus F)
  status_or_error client block_hash =
      map_err (λ e. to_verification_error (consensus_error (to_string e)))
        (get_finality_status g frost chain client block_hash)

  unfoldable pub get_finality_confidence :
      SubstrateVerificationClient V F → BlockRef C → Result FinalityVerificationError F
  unfolding confidence_of
  get_finality_confidence client block_ref = do
    status ← status_or_error client block_ref.hash
    ok (confidence_of client.params status)

  unfoldable pub verify_chain_rules :
      SubstrateVerificationClient V F
      → BlockRef C
      → ChainRules F
      → Result FinalityVerificationError Bool
  unfolding rules_hold
  verify_chain_rules client block_ref rules = do
    status ← status_or_error client block_ref.hash
    ok (rules_hold g chain rules status)
