-- ===== src/Examples/Legacy.antt =====
-- The older pallet's three calls, with blocks that are final at height 10 and proofs of at most 50.
use frost_substrate.Prelude.{
  ◌==◌, Result, Bool, ◌≤◌, leb, leb_iff, arith, insert, lookup, ℕ, ◌≡◌, refl, true, some, none, [],
  ◌∷◌, ok,
}
use frost_substrate.Examples.World.{block_ref}
use frost_substrate.External.Frost.{merkle}
use frost_substrate.External.State.{StateError, StateTransition, StateRoot}
use frost_substrate.LegacyPallet.{
  LegacyPallet, LegacyRuntime, LegacyGenerator, legacy_config_default, record_transition,
  generate_legacy_proof, verify_message, update_latest_block, transition_recorded,
  legacy_proof_generated, message_verified, state_finalized,
}
use frost_substrate.LegacyPallet.Storage.{
  Meaning, IsHonest, records, generates, verifies, updates, CalledFrom, at_genesis, by_call,
  IsSound,
}
use frost_substrate.LegacyPallet.Soundness.{CalledFrom-IsSound}

abbrev root : StateRoot ℕ
root = record { block_ref = block_ref; root_hash = [] }

abbrev transition : StateTransition ℕ
transition = record {
  chain_id = 0;
  block_height = 10;
  pre_state = root;
  post_state = root;
  transition_proof = none;
  metadata = record {
    timestamp = 0;
    version = 1;
    proof_type = merkle;
    module_name = "m";
    function_name = "f";
    target_chain = "c";
  };
}

-- Proofs are numbers, and a message is its proof.
abbrev generator : LegacyGenerator ℕ ℕ
generator = record { generate_proof = λ t c. ok 7; verify_proof = λ p c. ok (leb p 50) }

abbrev legacy_runtime : LegacyRuntime ℕ ℕ ℕ
legacy_runtime = record {
  signed_origin = true;
  validate_transition = λ t. t.block_height == 10;
  validate_message = λ m. true;
  is_final = λ b. ok (b.number == 10);
  merkle_generator = generator;
  bls_generator = generator;
  message_proof = λ m. m;
  proof_type_of = λ p. merkle;
  encoded_size = λ p. p;
  max_proof_size = 100;
}

abbrev meaning : Meaning ℕ ℕ ℕ
meaning = record {
  hashing = record { hash_transition = λ t. 1 ∷ []; hash_message = λ m. m ∷ [] };
  is_valid = λ t. t.block_height ≡ 10;
  was_final = λ b. b.number ≡ 10;
  was_verified = λ p. p ≤ 50;
  message_proof = λ m. m;
  encoded_size = λ p. p;
  limit = 100;
}

small : (p : ℕ) → ◌≡◌ {A = Result StateError Bool} (ok (leb p 50)) (ok true) → p ≤ 50
small p h = let yes : leb p 50 ≡ true = cc h in (leb_iff p 50).0 yes

honest : IsHonest meaning legacy_runtime
honest = record {
  valid = λ t h. ground arith;
  final = λ b h. let yes : (b.number == 10) ≡ true = cc h in ground arith;
  merkle_verified = λ p c h. small p h;
  bls_verified = λ p c h. small p h;
  same_proof = λ m. refl;
  same_size = λ p. refl;
  same_limit = refl;
}

abbrev empty_storage : LegacyPallet ℕ ℕ ℕ
empty_storage = record {
  transitions = [];
  proofs = [];
  messages = [];
  latest_block = none;
  proof_config = legacy_config_default;
  events = [];
}

empty_storage-IsSound : IsSound meaning empty_storage
unfolding lookup
empty_storage-IsSound = record {
  transitions = λ h t e. absurd (cc e);
  proofs = λ h q e. absurd (cc e);
  messages = λ h m e. absurd (cc e);
  events = tt;
  latest = refl;
}

abbrev recorded : LegacyPallet ℕ ℕ ℕ
recorded = record empty_storage {
  transitions = (1 ∷ [], transition) ∷ [];
  events = transition_recorded (1 ∷ []) ∷ [];
}

abbrev proved : LegacyPallet ℕ ℕ ℕ
proved = record recorded {
  proofs = (1 ∷ [], 7) ∷ [];
  events = transition_recorded (1 ∷ []) ∷ legacy_proof_generated (1 ∷ []) merkle ∷ [];
}

abbrev verified : LegacyPallet ℕ ℕ ℕ
verified = record proved {
  messages = (9 ∷ [], 9) ∷ [];
  events =
      transition_recorded (1 ∷ [])
      ∷ legacy_proof_generated (1 ∷ []) merkle
      ∷ message_verified (9 ∷ [])
      ∷ [];
}

abbrev full_storage : LegacyPallet ℕ ℕ ℕ
full_storage = record {
  transitions = (1 ∷ [], transition) ∷ [];
  proofs = (1 ∷ [], 7) ∷ [];
  messages = (9 ∷ [], 9) ∷ [];
  latest_block = some block_ref;
  proof_config = legacy_config_default;
  events =
      transition_recorded (1 ∷ [])
      ∷ legacy_proof_generated (1 ∷ []) merkle
      ∷ message_verified (9 ∷ [])
      ∷ state_finalized block_ref
      ∷ [];
}

abbrev runtimes : ℕ → LegacyRuntime ℕ ℕ ℕ
runtimes i = legacy_runtime

verified_from_empty : CalledFrom meaning.hashing runtimes empty_storage verified
unfolding record_transition generate_legacy_proof verify_message insert lookup
verified_from_empty = by_call {p = proved} (verifies 2 9 refl) (
    by_call {p = recorded} (generates 1 (1 ∷ []) merkle refl)
      (by_call {p = empty_storage} (records 0 transition refl) at_genesis))

CalledFrom-IsSound_example : IsSound meaning full_storage
unfolding update_latest_block
CalledFrom-IsSound_example =
    CalledFrom-IsSound meaning runtimes empty_storage (λ i. honest) empty_storage-IsSound
      (by_call (updates block_ref) verified_from_empty)
