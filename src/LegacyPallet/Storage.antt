-- ===== src/LegacyPallet/Storage.antt =====
-- What the storage of the older pallet holds after any sequence of its calls.
use frost_substrate.Prelude.{
  Option, none, List, [], ◌∷◌, ℕ, ◌≡◌, ◌≤◌, true, some, Bytes, lookup, ok, All,
}
use frost_substrate.External.Frost.{BlockRef, ProofType}
use frost_substrate.External.State.{StateTransition}
use frost_substrate.LegacyPallet.{
  LegacyPallet, LegacyEvent, LegacyConfig, LegacyRuntime, Hashing, record_transition,
  generate_legacy_proof, verify_message, update_latest_block, transition_recorded,
  legacy_proof_generated, message_verified, state_finalized,
}

module _ {C P M : Type 0} where
  -- What an event tells has its entry in the storage.
  abbrev pub IsTold : LegacyPallet C P M → LegacyEvent C → Type 0
  IsTold p (transition_recorded h) = (t : StateTransition C) × (lookup h p.transitions ≡ some t)
  IsTold p (legacy_proof_generated h t) = (q : P) × (lookup h p.proofs ≡ some q)
  IsTold p (message_verified h) = (m : M) × (lookup h p.messages ≡ some m)
  IsTold p (state_finalized b) = Unit

-- The block of the last event that a state is finalized, or the one before the events.
abbrev pub last_told :
    {C : Type 0} → Option (BlockRef C) → List (LegacyEvent C) → Option (BlockRef C)
last_told b [] = b
last_told b (state_finalized c ∷ rest) = last_told (some c) rest
last_told b (transition_recorded h ∷ rest) = last_told b rest
last_told b (legacy_proof_generated h t ∷ rest) = last_told b rest
last_told b (message_verified h ∷ rest) = last_told b rest

-- Every answer that the calls rely on means something outside the pallet: of a block that a predicate
-- calls final, of a proof that a generator accepts, and of the limit on proofs.
pub record Meaning (C P M : Type 0) : Type 1 where
  pub hashing : Hashing C M
  pub is_valid : StateTransition C → Type 0
  pub was_final : BlockRef C → Type 0
  pub was_verified : P → Type 0
  pub message_proof : M → P
  pub encoded_size : P → ℕ
  pub limit : ℕ

module _ {C P M : Type 0} (meaning : Meaning C P M) where
  -- A runtime whose answers are to be believed.
  pub record IsHonest (runtime : LegacyRuntime C P M) : Type 0 where
    pub valid : (t : StateTransition C) → runtime.validate_transition t ≡ true → meaning.is_valid t
    pub final : (b : BlockRef C) → runtime.is_final b ≡ ok true → meaning.was_final b
    pub merkle_verified :
        (p : P) (c : LegacyConfig)
        → runtime.merkle_generator.verify_proof p c ≡ ok true
        → meaning.was_verified p
    pub bls_verified :
        (p : P) (c : LegacyConfig)
        → runtime.bls_generator.verify_proof p c ≡ ok true
        → meaning.was_verified p
    pub same_proof : (m : M) → runtime.message_proof m ≡ meaning.message_proof m
    pub same_size : (p : P) → runtime.encoded_size p ≡ meaning.encoded_size p
    pub same_limit : runtime.max_proof_size ≡ meaning.limit

  pub record IsSound (p : LegacyPallet C P M) : Type 0 where
    pub transitions :
        (h : Bytes) (t : StateTransition C)
        → lookup h p.transitions ≡ some t
        → (h ≡ meaning.hashing.hash_transition t)
          × meaning.is_valid t
          × meaning.was_final t.pre_state.block_ref
    pub proofs :
        (h : Bytes) (q : P)
        → lookup h p.proofs ≡ some q
        → (meaning.encoded_size q ≤ meaning.limit)
          × ((t : StateTransition C) × (lookup h p.transitions ≡ some t))
    pub messages :
        (h : Bytes) (m : M)
        → lookup h p.messages ≡ some m
        → (h ≡ meaning.hashing.hash_message m) × meaning.was_verified (meaning.message_proof m)
    pub events : All (IsTold p) p.events
    pub latest : p.latest_block ≡ last_told none p.events

module _ {C P M : Type 0} (hashing : Hashing C M) (runtimes : ℕ → LegacyRuntime C P M) where
  -- A call that went through, in one of the runtimes, or an internal update.
  pub data Called (p : LegacyPallet C P M) : LegacyPallet C P M → Type 0 where
    records :
        {p' : LegacyPallet C P M} (i : ℕ) (t : StateTransition C)
        → record_transition hashing (runtimes i) t p ≡ ok p'
        → Called p p'
    generates :
        {p' : LegacyPallet C P M} (i : ℕ) (h : Bytes) (t : ProofType)
        → generate_legacy_proof hashing (runtimes i) h t p ≡ ok p'
        → Called p p'
    verifies :
        {p' : LegacyPallet C P M} (i : ℕ) (m : M)
        → verify_message hashing (runtimes i) m p ≡ ok p'
        → Called p p'
    updates : (b : BlockRef C) → Called p (update_latest_block b p)

  pub data CalledFrom (genesis : LegacyPallet C P M) : LegacyPallet C P M → Type 0 where
    at_genesis : CalledFrom genesis genesis
    by_call :
        {p p' : LegacyPallet C P M} → Called p p' → CalledFrom genesis p → CalledFrom genesis p'
