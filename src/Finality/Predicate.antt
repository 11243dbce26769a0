-- ===== src/Finality/Predicate.antt =====
-- src/finality/mod.rs: `GrandpaFinality` and its `FinalityPredicate`.
pub mod Soundness
pub mod Waiting
pub mod Answers
pub mod Liveness
pub mod Forks
use frost_substrate.Prelude.{
  suc, ℕ, zero, ◌+◌, ◌*◌, String, Bool, true, false, Option, none, some, List, [], ◌∷◌, format, ltb,
  if◌then◌else◌, Result, ok, err, map_err, ok_or, expect, Fault, ◌>>=◌,
}
use frost_substrate.External.Chain.{AuthorityList, Chain}
use frost_substrate.External.Float.{Float}
use frost_substrate.External.Frost.{
  Frost, BlockRef, PredicateConfig, ChainRules, FinalityError, chain_error as chain_failure,
  consensus_error as consensus_failure, timeout, FinalityVerificationError,
}
use frost_substrate.External.Grandpa.{Grandpa}
use frost_substrate.Finality.Client.{
  SubstrateVerificationClient, new_with_runtime_authorities, handle_authority_set_update,
}
use frost_substrate.Finality.Client.Queries.{verify_block_hash}
use frost_substrate.Finality.Client.Confidence.{get_finality_confidence, verify_chain_rules}
use frost_substrate.Finality.Config.{ChainConfig, GrandpaVerificationParams}
use frost_substrate.Finality.Errors.{
  GrandpaFinalityVerificationError, chain_error, authority_set_error,
}

-- `dyn BaseFinalityVerificationClient`, with the methods that the predicate calls, as it answers at
-- one moment.
pub record FinalityVerificationClient (C F : Type 0) : Type 0 where
  pub verify_hash : BlockRef C → Result FinalityVerificationError Bool
  pub confidence : BlockRef C → Result FinalityVerificationError F
  pub verify_rules : BlockRef C → ChainRules F → Result FinalityVerificationError Bool

-- The client of this repository behind that interface, at one state of the chain.
abbrev pub substrate_client :
    {C V F : Type 0} ⦃fl : Float F⦄
    → Grandpa V
    → Frost C
    → Chain
    → SubstrateVerificationClient V F
    → FinalityVerificationClient C F
substrate_client g frost chain client = record {
  verify_hash = verify_block_hash g frost chain;
  confidence = get_finality_confidence g frost chain client;
  verify_rules = verify_chain_rules g frost chain client;
}

-- The client as it answers at the three awaits of `is_final`: the chain may move in between.
pub record Moments (C F : Type 0) : Type 0 where
  pub at_hash : FinalityVerificationClient C F
  pub at_confidence : FinalityVerificationClient C F
  pub at_rules : FinalityVerificationClient C F

module _ {C F : Type 0} ⦃fl : Float F⦄ (frost : Frost C) (config : PredicateConfig F) where
  abbrev percent : F → ℕ
  percent x = fl.to_u64 (fl.mul x (fl.decimal 100 0))

  -- The rules that `is_final` asks for.
  abbrev pub grandpa_rules : ChainRules F
  grandpa_rules = record {
    min_confirmations = config.min_confirmations;
    confidence_threshold = config.confidence_threshold;
    max_fork_depth = 50;
    min_participation = fl.decimal 67 2;
  }

  unfoldable pub is_final : Moments C F → BlockRef C → Result (FinalityError C) Bool
  is_final m block_ref = do
    is_there ←
        map_err
          (λ e. chain_failure (format ("Block verification failed: " ∷ frost.display_error e ∷ [])))
          (m.at_hash.verify_hash block_ref)
    if is_there
        then (do
          finality_confidence ←
              map_err
                (λ e.
                  consensus_failure
                    (format ("Failed to get finality confidence: " ∷ frost.display_error e ∷ []))
                    (percent config.confidence_threshold) 0)
                (m.at_confidence.confidence block_ref)
          if fl.lt finality_confidence config.confidence_threshold
              then ok false
              else map_err
                  (λ e.
                    consensus_failure
                      (format ("Chain rule verification failed: " ∷ frost.display_error e ∷ []))
                      (percent grandpa_rules.min_participation) (percent finality_confidence))
                  (m.at_rules.verify_rules block_ref grandpa_rules))
        else err (chain_failure "Block not found")

  -- One round of the loop of `wait_for_finality`: the client at the round's awaits, and the time since
  -- the start at the round's look at the clock, in nanoseconds.
  pub record Round : Type 0 where
    pub moments : Moments C F
    pub elapsed : ℕ

  -- The first argument is fuel; `none` means that the wait is not over.
  unfoldable pub wait_from :
      ℕ
      → (ℕ → Round)
      → BlockRef C
      → (retry_count : ℕ) → Option (Result (FinalityError C) (Unit {0}))
  unfolding is_final
  wait_from zero rounds block_ref retry_count = none
  wait_from (suc fuel) rounds block_ref retry_count =
      let round = rounds retry_count in
      elim (is_final round.moments block_ref) [
        | err e ↦ some (err e)
        | ok true ↦ some (ok tt)
        | ok false ↦
            if ltb config.evaluation_timeout round.elapsed
            then some (err (timeout block_ref config.evaluation_timeout retry_count))
            else wait_from fuel rounds block_ref (retry_count + 1)
      ]

  abbrev pub wait_for_finality :
      ℕ → (ℕ → Round) → BlockRef C → Option (Result (FinalityError C) (Unit {0}))
  wait_for_finality fuel rounds block_ref = wait_from fuel rounds block_ref 0
