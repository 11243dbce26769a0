-- ===== src/Proof.antt =====
-- src/proof/generator.rs: the configuration, the `ProofGenerator` interface and the parts that the two
-- generators share.
pub mod Merkle
pub mod Bls
pub mod Leaves
pub mod Outcomes
pub mod Types
pub mod Exactness
pub mod Expiry
use frost_substrate.Prelude.{
  panic, error, leb, Fault, ℕ, true, false, ◌+◌, ◌*◌, ◌%◌, ◌^◌, String, Bool, Option, some, List,
  [], ◌∷◌, Bytes, length, format, ltb, if◌then◌else◌, Result, ok, err, map_err, ok_or, ◌>>=◌, ◌>>◌,
  not,
}
use frost_substrate.External.Chain.{Hash, Header, Chain}
use frost_substrate.External.Frost.{ProofType, custom, proof_type_eq}
use frost_substrate.External.State.{
  StateError, internal, StateTransition, BlockSummary, ProofMetadata, ProofData, States,
}

pub record ProofGenerationConfig : Type 0 where
  pub proof_type : ProofType
  pub max_proof_size : ℕ
  -- In seconds.
  pub proof_ttl : ℕ

abbrev pub config_default : ProofGenerationConfig
config_default = record {
  proof_type = custom "Merkle";
  max_proof_size = 1024 * 1024;
  proof_ttl = 3600 * 24;
}

pub record ProofGenerator (C P : Type 0) : Type 0 where
  pub generate_proof : StateTransition C → ProofGenerationConfig → Result (Fault StateError) P
  pub supported_types : List ProofType

-- Whether a list of types holds one, by the derived `==`.
abbrev pub contains : List ProofType → ProofType → Bool
contains [] t = false
contains (s ∷ rest) t = if proof_type_eq s t then true else contains rest t

-- The chain and the wall clock, as a generator sees them during one call, and the last second that a
-- `SystemTime` can hold.
pub record Surroundings : Type 0 where
  pub chain : Chain
  pub now : ℕ
  pub later : ℕ
  pub clock_end : ℕ

-- `SystemTime::now() + Duration::from_secs(ttl)`, which panics behind the end of the clock.
abbrev pub expiry : {E : Type 0} → Surroundings → (ttl : ℕ) → Result (Fault E) ℕ
expiry world ttl =
    let sum = world.later + ttl in if leb sum world.clock_end then ok sum else err panic

abbrev pub check_type : ProofType → ProofType → Result StateError (Unit {0})
check_type wanted given =
    if proof_type_eq given wanted then ok tt else err (internal "Unsupported proof type")

-- `client.header(..)` with its two errors; `which` is "source" or "target".
unfoldable pub block_header : Chain → (which missing : String) → Hash → Result StateError Header
block_header chain which missing hash = do
  found ←
      map_err (λ e. internal (format ("Failed to get " ∷ which ∷ " header: " ∷ e ∷ [])))
        (chain.header hash)
  ok_or (internal missing) found

module _ {C P : Type 0} (st : States C P) where
  abbrev pub summary : Header → BlockSummary
  summary h = record {
    number = h.number;
    hash = st.hex_encode h.hash;
    parent_hash = st.hex_encode h.parent_hash;
  }

  -- What both generators do with their bytes and their JSON: the proof data, its encoded size as a
  -- u32 against the maximum, the proof.
  unfoldable pub finish_proof :
      Surroundings
      → ProofGenerationConfig
      → StateTransition C
      → ProofType
      → Bytes
      → ProofMetadata
      → Result (Fault StateError) P
  finish_proof world config transition proof_type content json = do
    metadata ←
        map_err (λ e. error (internal (format ("Failed to serialize metadata: " ∷ e ∷ []))))
          (st.to_value json)
    expires_at ← expiry world config.proof_ttl
    let proof_data : ProofData = record {
      proof_type = proof_type;
      content = content;
      metadata = some metadata;
      generated_at = world.now;
      expires_at = some expires_at;
      version = 1;
    }
    encoded ←
        map_err (λ e. error (internal (format ("Failed to encode proof: " ∷ e ∷ []))))
          (st.to_vec proof_data)
    if ltb config.max_proof_size (length encoded % 2 ^ 32)
        then err (
            error (
              internal (
                format (
                  "Proof size "
                  ∷ st.display_size (length encoded)
                  ∷ " exceeds maximum allowed size "
                  ∷ st.display_size config.max_proof_size
                  ∷ []))))
        else ok (st.new_proof transition proof_data)
