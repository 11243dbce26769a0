-- ===== src/Verification.antt =====
-- src/verification/mod.rs: the two verifiers and the registry.
pub mod Registry
use frost_substrate.Prelude.{
  String, Bool, true, false, List, [], ◌∷◌, ◌++◌, if◌then◌else◌, Result, ok, err,
}
use frost_substrate.External.Frost.{ProofType, basic, signature}
use frost_substrate.External.State.{StateError, internal, States}
use frost_substrate.Proof.{contains}

-- `dyn ProofVerifier`, for proofs `P` and `VerificationParams` `Q`.
pub record ProofVerifier (P Q : Type 0) : Type 0 where
  pub verify_proof : P → Q → Result StateError Bool
  pub supported_types : List ProofType

module _ {P Q : Type 0} where
  -- Both verifiers answer yes to everything, as placeholders.
  abbrev pub merkle_verifier : ProofVerifier P Q
  merkle_verifier = record { verify_proof = λ p q. ok true; supported_types = basic ∷ [] }

  abbrev pub bls_verifier : ProofVerifier P Q
  bls_verifier = record { verify_proof = λ p q. ok true; supported_types = signature ∷ [] }

pub record VerificationRegistry (P Q : Type 0) : Type 0 where
  pub verifiers : List (ProofVerifier P Q)

module _ {P Q : Type 0} where
  abbrev pub new_registry : VerificationRegistry P Q
  new_registry = record { verifiers = [] }

  unfoldable pub register_verifier :
      ProofVerifier P Q → VerificationRegistry P Q → VerificationRegistry P Q
  register_verifier verifier registry = record { verifiers = registry.verifiers ++ verifier ∷ [] }

module _ {C P Q : Type 0} (st : States C P) where
  -- The loop of `verify_proof`, which returns at the first verifier that supports the type.
  unfoldable pub verify_with : List (ProofVerifier P Q) → P → Q → Result StateError Bool
  verify_with [] proof params = err (internal "No suitable verifier found")
  verify_with (verifier ∷ rest) proof params =
      if contains verifier.supported_types (st.proof_type_of proof)
      then verifier.verify_proof proof params
      else verify_with rest proof params

  abbrev pub verify_registered : VerificationRegistry P Q → P → Q → Result StateError Bool
  verify_registered registry = verify_with registry.verifiers
