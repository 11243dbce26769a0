-- ===== src/Observer.antt =====
-- src/observer/mod.rs: the errors, `WatchTarget`, `SSMPObserver` and its construction. Matching and the
-- handling of notifications stand in the modules below.
pub mod Matching
pub mod Transition
pub mod Notify
pub mod Worker
pub mod Windows
pub mod Targets
pub mod Delivery
pub mod Delivered
pub mod Failed
pub mod Provenance
pub mod Turns
pub mod Undisturbed
pub mod Atomic
pub mod Safety
pub mod Fair
pub mod Calm
pub mod Complete
pub mod Ending
use frost_substrate.Prelude.{
  ℕ, ◌≤◌, String, Bool, Option, none, some, List, [], ◌∷◌, ◌++◌, Bytes, length, format, leb,
  if◌then◌else◌, Result, ok, err, map_err, Fault, error, panic, expect, lift, ◌>>=◌,
}
use frost_substrate.External.Chain.{Chain, Hash}
use frost_substrate.External.Float.{Float}
use frost_substrate.External.Frost.{FinalityError, PredicateConfig}
use frost_substrate.External.Grandpa.{Grandpa}
use frost_substrate.Finality.Build.{GrandpaFinality, substrate, new_finality, new_from_runtime}
use frost_substrate.Finality.Client.{new_client}
use frost_substrate.Finality.Config.{ChainConfig, chain_config_default, params_default}
use frost_substrate.Finality.Errors.{to_string}
use frost_substrate.Proof.{ProofGenerator}

pub data ErrorKind : Type 0 where
  invalid_block_hash invalid_block_number : ErrorKind
  runtime_api_error : String → ErrorKind
  state_not_found proof_generation_failed message_routing_failed : ErrorKind

-- `frost_protocol::error::Error`: the variant that the source builds, and what that crate makes of a
-- `FinalityError`.
pub data ProtocolError (C : Type 0) : Type 0 where
  custom : String → ProtocolError C
  from_finality : FinalityError C → ProtocolError C

-- `From<sp_api::ApiError>`.
abbrev pub from_api_error : String → ErrorKind
from_api_error e = runtime_api_error e

-- `From<ErrorKind>`.
abbrev pub protocol_error : {C : Type 0} → ErrorKind → ProtocolError C
protocol_error invalid_block_hash = custom "Invalid block hash"
protocol_error invalid_block_number = custom "Invalid block number"
protocol_error (runtime_api_error e) = custom (format ("Runtime API error: " ∷ e ∷ []))
protocol_error state_not_found = custom "State not found"
protocol_error proof_generation_failed = custom "Failed to generate proof"
protocol_error message_routing_failed = custom "Failed to route message"

pub record WatchTarget : Type 0 where
  pub module_name : Bytes
  pub function_name : Bytes
  pub message_hash : Option Bytes
  pub target_chain : Bytes

-- `BoundedVec::try_from` with its `map_err`.
abbrev bounded : ℕ → String → Bytes → Result String Bytes
bounded limit e bytes = if leb (length bytes) limit then ok bytes else err e

abbrev bounded_hash : Option Bytes → Result String (Option Bytes)
bounded_hash none = ok none
bounded_hash (some hash) = do h ← bounded 64 "Message hash too long" hash; ok (some h)

unfoldable pub new_watch_target : Bytes → Bytes → Option Bytes → Bytes → Result String WatchTarget
new_watch_target module_name function_name message_hash target_chain = do
  module_bytes ← bounded 32 "Module name too long" module_name
  function_bytes ← bounded 32 "Function name too long" function_name
  hash_bytes ← bounded_hash message_hash
  chain_bytes ← bounded 32 "Target chain too long" target_chain
  ok (record {
    module_name = module_bytes;
    function_name = function_bytes;
    message_hash = hash_bytes;
    target_chain = chain_bytes;
  })

-- `MessageRouter`, with the method that the observer calls: messages `M`, errors by their text.
pub record MessageRouter (M : Type 0) : Type 0 where
  pub route_message : M → Result String (Unit {0})

pub record Observer (C P M V F : Type 0) : Type 0 where
  pub watch_targets : List WatchTarget
  pub proof_generator : ProofGenerator C P
  pub message_router : Option (MessageRouter M)
  pub finality : GrandpaFinality V F

-- Nothing makes one.
record ProcessingStats (F : Type 0) : Type 0 where
  blocks_processed : ℕ
  events_matched : ℕ
  proofs_generated : ℕ
  messages_routed : ℕ
  processing_errors : ℕ
  average_processing_time_ms : F

module _ {C P M V F : Type 0} where
  unfoldable pub register_target : WatchTarget → Observer C P M V F → Observer C P M V F
  register_target target o = record o { watch_targets = o.watch_targets ++ target ∷ [] }

-- `config` is `PredicateConfig::default()` of frost_protocol, and `gauge` what the gauge shows.
module _ {C P M V F : Type 0} ⦃fl : Float F⦄ (g : Grandpa V) (config : PredicateConfig F)
    (gauge : ℕ) where
  unfoldable pub new_observer :
      ProofGenerator C P
      → Option (MessageRouter M)
      → Result (Fault (ProtocolError C)) (Observer C P M V F)
  new_observer proof_generator message_router = do
    voter_set ← expect (g.voter_set_new [])
    let verification_client = new_client voter_set params_default chain_config_default gauge
    finality ← new_finality g config (substrate verification_client) []
    ok (record {
      watch_targets = [];
      proof_generator = proof_generator;
      message_router = message_router;
      finality = finality;
    })

  unfoldable pub new_with_authorities :
      (chain later : Chain)
      → ProofGenerator C P
      → Option (MessageRouter M)
      → ChainConfig
      → Result (ProtocolError C) (Observer C P M V F)
  new_with_authorities chain later proof_generator message_router chain_config = do
    finality ←
        map_err (λ e. custom (format ("Failed to initialize finality: " ∷ to_string e ∷ [])))
          (new_from_runtime g chain later config params_default chain_config gauge)
    ok (record {
      watch_targets = [];
      proof_generator = proof_generator;
      message_router = message_router;
      finality = finality;
    })
