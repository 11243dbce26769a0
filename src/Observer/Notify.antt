-- ===== src/Observer/Notify.antt =====
-- src/observer/mod.rs: `handle_finality_notification` and `on_block_finalized`.
use frost_substrate.Prelude.{
  map_fault, ℕ, String, true, false, Option, none, some, List, [], ◌∷◌, ◌++◌, Bytes, leb,
  if◌then◌else◌, Result, ok, err, map_err, Fault, error, ◌>>=◌,
}
use frost_substrate.External.Chain.{Hash}
use frost_substrate.External.Float.{Float}
use frost_substrate.External.Frost.{Frost, BlockRef}
use frost_substrate.External.Grandpa.{Justification}
use frost_substrate.External.State.{States}
use frost_substrate.Finality.Client.Justification.{u64_max}
use frost_substrate.Finality.Client.Queries.{to_hash_array}
use frost_substrate.Finality.Predicate.{Moments, is_final}
use frost_substrate.Observer.{
  lift, ProtocolError, from_finality, protocol_error, invalid_block_hash, invalid_block_number,
  proof_generation_failed, message_routing_failed, WatchTarget, MessageRouter, Observer,
}
use frost_substrate.Observer.Matching.{matches_watch_target}
use frost_substrate.Observer.Transition.{into_transition, generate_state_transition}
use frost_substrate.Proof.{config_default}
use frost_substrate.RuntimeApi.{SsmpApi}

pub record FinalityNotification : Type 0 where
  pub hash : Hash
  pub number : ℕ
  pub justification : Option Justification

-- What one notification is handled in: the foreign functions, the events of the chain, the answers of
-- the observer's verification client and the wall clock. `new_message` is `FrostMessage::new` for a
-- state transition with no target, given the payload and the source.
pub record Env (C P M F Event : Type 0) : Type 0 where
  pub frost : Frost C
  pub states : States C P
  pub api : SsmpApi Event
  pub encode_event : Event → Bytes
  pub new_message : Bytes → String → M
  pub moments : Moments C F
  pub now : ℕ

-- A run hands messages to the router: it takes those handed over before, and returns its result with
-- those handed over after it, in their order.
abbrev pub Run : Type 0 → Type 0 → Type 0
Run C M = List M → Result (Fault (ProtocolError C)) (Unit {0}) × List M

-- The number must fit a u64.
abbrev pub to_u64_number : {C : Type 0} → ℕ → Result (ProtocolError C) ℕ
to_u64_number n = if leb n u64_max then ok n else err (protocol_error invalid_block_number)

abbrev pub notified_block :
    {C : Type 0} → Frost C → FinalityNotification → Result (ProtocolError C) (BlockRef C)
notified_block frost notification = do
  hash_bytes ← to_hash_array (protocol_error invalid_block_hash) notification.hash
  block_number ← to_u64_number notification.number
  ok (record { hash = hash_bytes; number = block_number; chain_id = frost.chain_id_default })

-- A refused message has been handed over too.
unfoldable pub route : {C M : Type 0} → Option (MessageRouter M) → M → Run C M
route none message sent = (ok tt, sent)
route (some router) message sent = (
  map_err (λ e. error (protocol_error message_routing_failed)) (router.route_message message),
  sent ++ message ∷ [],
)

module _ {C P M V F Event : Type 0} ⦃fl : Float F⦄ (env : Env C P M F Event)
    (observer : Observer C P M V F) where
  -- The proof for a matched target, in the message that carries it.
  unfoldable pub prove_target : BlockRef C → WatchTarget → Result (Fault (ProtocolError C)) M
  unfolding generate_state_transition
  prove_target block_ref target = do
    transition ← lift (generate_state_transition env.states env.now block_ref target)
    proof ←
        map_err (map_fault (λ e. protocol_error proof_generation_failed))
          (observer.proof_generator.generate_proof (into_transition transition) config_default)
    ok (env.new_message (env.states.encode_proof proof) "source")

  -- One round of the loop over the targets.
  unfoldable pub process_target : BlockRef C → WatchTarget → Run C M
  process_target block_ref target sent =
      elim (matches_watch_target env.encode_event env.api block_ref target) [
        | err e ↦ (err e, sent)
        | ok false ↦ (ok tt, sent)
        | ok true ↦ elim (prove_target block_ref target) [
          | err e ↦ (err e, sent)
          | ok message ↦ route observer.message_router message sent
        ]
      ]

  -- The loop ends at the first error.
  unfoldable pub process_targets : BlockRef C → List WatchTarget → Run C M
  unfolding process_target
  process_targets block_ref [] sent = (ok tt, sent)
  process_targets block_ref (target ∷ rest) sent =
      let (r, sent') = process_target block_ref target sent in
      elim r [ err e ↦ (err e, sent') | ok u ↦ process_targets block_ref rest sent' ]

  unfoldable pub handle_block : BlockRef C → Run C M
  handle_block block_ref sent =
      elim (is_final env.frost observer.finality.config env.moments block_ref) [
        | err e ↦ (err (error (from_finality e)), sent)
        | ok false ↦ (ok tt, sent)
        | ok true ↦ process_targets block_ref observer.watch_targets sent
      ]

  unfoldable pub handle_finality_notification : FinalityNotification → Run C M
  unfolding handle_block
  handle_finality_notification notification sent = elim (notified_block env.frost notification) [
    | err e ↦ (err (error e), sent)
    | ok block_ref ↦ handle_block block_ref sent
  ]

  -- `Hash::decode` reads 32 bytes of the block's hash; the number must fit the block number type.
  unfoldable pub on_block_finalized : (max_number : ℕ) → BlockRef C → Run C M
  on_block_finalized max_number block sent =
      elim (to_hash_array {E = ProtocolError C} (protocol_error invalid_block_hash) block.hash) [
        | err e ↦ (err (error e), sent)
        | ok hash ↦
            if leb block.number max_number
            then handle_finality_notification
                (record { hash = hash; number = block.number; justification = none }) sent
            else (err (error (protocol_error invalid_block_number)), sent)
      ]
