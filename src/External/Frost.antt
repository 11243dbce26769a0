-- ===== src/External/Frost.antt =====
-- frost_protocol: the types that the source builds and matches, with the fields and variants that it
-- names, and the functions of that crate (and of formatting) that it calls.
use frost_substrate.Prelude.{ℕ, String, Bool, true, false, ◌≡◌, ◌↔◌, str_eq, eq_iff, arith}
use frost_substrate.External.Chain.{Hash}

pub record BlockRef (C : Type 0) : Type 0 where
  pub hash : Hash
  pub number : ℕ
  pub chain_id : C

-- `frost_protocol::finality::predicate::Block`.
pub record Block : Type 0 where
  pub hash : Hash
  pub number : ℕ

pub record PredicateConfig (F : Type 0) : Type 0 where
  pub confidence_threshold : F
  pub min_confirmations : ℕ
  -- In nanoseconds.
  pub evaluation_timeout : ℕ

-- `chain_params` holds constants that nothing here reads.
pub record ChainRules (F : Type 0) : Type 0 where
  pub min_confirmations : ℕ
  pub confidence_threshold : F
  pub max_fork_depth : ℕ
  pub min_participation : F

pub data FinalityError (C : Type 0) : Type 0 where
  chain_error : String → FinalityError C
  consensus_error : String → ℕ → ℕ → FinalityError C
  timeout : BlockRef C → ℕ → ℕ → FinalityError C

pub data FinalityVerificationError : Type 0 where
  verification_error : String → FinalityVerificationError

pub data ProofType : Type 0 where
  basic signature merkle : ProofType
  custom : String → ProofType

-- The derived `==`.
abbrev pub proof_type_eq : ProofType → ProofType → Bool
proof_type_eq basic basic = true
proof_type_eq signature signature = true
proof_type_eq merkle merkle = true
proof_type_eq (custom s) (custom t) = str_eq s t
proof_type_eq _ _ = false

pub proof_type_eq_iff : (a b : ProofType) → (proof_type_eq a b ≡ true) ↔ (a ≡ b)
proof_type_eq_iff (custom s) (custom t) = ground (arith, eq_iff s t)
proof_type_eq_iff basic b = ground arith
proof_type_eq_iff signature b = ground arith
proof_type_eq_iff merkle b = ground arith
proof_type_eq_iff (custom s) b = ground arith

-- `ChainId`'s constructors and the texts of foreign values.
pub record Frost (C : Type 0) : Type 0 where
  pub chain_id_new : String → C
  pub chain_id_default : C
  -- `{}` of a `FinalityVerificationError`, and `{:?}` and `{}` of a hash.
  pub display_error : FinalityVerificationError → String
  pub debug_hash : Hash → String
  pub display_hash : Hash → String
