-- ===== src/Finality/Errors.antt =====
-- src/finality/mod.rs: `GrandpaFinalityVerificationError`, its texts and its conversions.
use frost_substrate.Prelude.{String, format, [], ◌∷◌}
use frost_substrate.External.Frost.{
  FinalityError, chain_error as chain_failure, consensus_error as consensus_failure,
  FinalityVerificationError, verification_error,
}

pub data GrandpaFinalityVerificationError : Type 0 where
  chain_error : String → GrandpaFinalityVerificationError
  block_not_found : String → GrandpaFinalityVerificationError
  consensus_error : String → GrandpaFinalityVerificationError
  timeout_error : String → GrandpaFinalityVerificationError
  invalid_justification : String → GrandpaFinalityVerificationError
  invalid_proof : String → GrandpaFinalityVerificationError
  authority_set_error : String → GrandpaFinalityVerificationError
  signature_verification_error : String → GrandpaFinalityVerificationError
  invalid_input : String → GrandpaFinalityVerificationError

-- The texts that `thiserror` derives.
abbrev pub to_string : GrandpaFinalityVerificationError → String
to_string (chain_error s) = format ("Chain error: " ∷ s ∷ [])
to_string (block_not_found s) = format ("Block not found: " ∷ s ∷ [])
to_string (consensus_error s) = format ("Consensus error: " ∷ s ∷ [])
to_string (timeout_error s) = format ("Timeout error: " ∷ s ∷ [])
to_string (invalid_justification s) = format ("Invalid justification: " ∷ s ∷ [])
to_string (invalid_proof s) = format ("Invalid proof: " ∷ s ∷ [])
to_string (authority_set_error s) = format ("Authority set error: " ∷ s ∷ [])
to_string (signature_verification_error s) = format ("Signature verification failed: " ∷ s ∷ [])
to_string (invalid_input s) = format ("Invalid input: " ∷ s ∷ [])

-- `From` into `FinalityVerificationError`.
abbrev pub to_verification_error : GrandpaFinalityVerificationError → FinalityVerificationError
to_verification_error e = verification_error (to_string e)

-- `From` into `FinalityError`.
abbrev pub to_finality_error : {C : Type 0} → GrandpaFinalityVerificationError → FinalityError C
to_finality_error (consensus_error msg) = consensus_failure msg 0 0
to_finality_error (chain_error s) = chain_failure (to_string (chain_error s))
to_finality_error e = chain_failure (to_string e)
