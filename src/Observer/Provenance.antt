-- ===== src/Observer/Provenance.antt =====
-- Where the messages come from that a worker hands to the router.
use frost_substrate.Prelude.{
  ◌+◌, ◌≤◌, ◌≡◌, refl, ap, ◌∙◌, inl, inr, true, min, List, [], ◌∷◌, ok, All, All-append,
  Result-cases, Bool-cases, Option-cases,
}
use mathlib.Core.List.{Memᴰ}
use frost_substrate.External.Chain.{Header}
use frost_substrate.External.Float.{Float}
use frost_substrate.External.Frost.{BlockRef}
use frost_substrate.External.Grandpa.{Grandpa}
use frost_substrate.Finality.Client.Decisions.{HasHeader}
use frost_substrate.Finality.Predicate.{is_final}
use frost_substrate.Finality.Predicate.Soundness.{Snapshot, moments}
use frost_substrate.Observer.{WatchTarget, Observer}
use frost_substrate.Observer.Matching.{matches_watch_target}
use frost_substrate.Observer.Notify.{
  notified_block, FinalityNotification, Env, route, prove_target, process_target, process_targets,
  handle_block, handle_finality_notification,
}
use frost_substrate.Observer.Worker.{SsmpWorker}

module _ {C P M V F Event : Type 0} ⦃fl : Float F⦄ (env : Env C P M F Event)
    (o : Observer C P M V F) where
  -- A message that carries the proof for a watched target that an event of the block matches.
  pub record IsProven (b : BlockRef C) (m : M) : Type 0 where
    pub target : WatchTarget
    pub watched : Memᴰ target o.watch_targets
    pub matched : matches_watch_target env.encode_event env.api b target ≡ ok true
    pub proved : prove_target env o b target ≡ ok m

  module _ (Q : M → Type 0) (b : BlockRef C) (proven : (m : M) → IsProven b m → Q m) where
    process_target-All :
        (t : WatchTarget)
        → Memᴰ t o.watch_targets
        → (before : List M) → All Q before
        → All Q (process_target env o b t before).1
    unfolding process_target route
    process_target-All t watched before all =
        elim (Result-cases (matches_watch_target env.encode_event env.api b t)) [
          | inr (e, failed) ↦ rw (failed, process_target) all
          | inl (m, said) ↦ elim (Bool-cases m) [
            | inr no_match ↦ rw (said, no_match, process_target) all
            | inl a_match ↦ elim (Result-cases (prove_target env o b t)) [
              | inr (e, failed) ↦ rw (said, a_match, failed, process_target) all
              | inl (message, proved) ↦
                  let new = proven message (record {
                    target = t;
                    watched = watched;
                    matched = said ∙ ap ok a_match;
                    proved = proved;
                  }) in
                  elim (Option-cases o.message_router) [
                    | inl alone ↦ rw (said, a_match, proved, alone, process_target, route) all
                    | inr (router, routed) ↦
                        rw (said, a_match, proved, routed, process_target, route)
                          (All-append Q before (message ∷ []) all (new, tt))
                  ]
            ]
          ]
        ]

    process_targets-All :
        (ts : List WatchTarget)
        → ((t : WatchTarget) → Memᴰ t ts → Memᴰ t o.watch_targets)
        → (before : List M) → All Q before
        → All Q (process_targets env o b ts before).1
    unfolding process_targets
    process_targets-All [] watched before all = all
    process_targets-All (t ∷ ts) watched before all =
        let next = process_target-All t (watched t (Memᴰ.head refl)) before all in
        elim (Result-cases (process_target env o b t before).0) [
          | inr (e, failed) ↦ rw (failed, process_targets) next
          | inl (u, went) ↦
              rw (went, process_targets)
                (process_targets-All ts (λ t' h. watched t' (Memᴰ.tail h)) _ next)
        ]

  -- Whatever is told of the proofs for the notified block, if it is final, is true of all messages.
  pub handle_finality_notification-All :
      (Q : M → Type 0) (n : FinalityNotification)
      → ((b : BlockRef C)
          → notified_block env.frost n ≡ ok b
          → is_final env.frost o.finality.config env.moments b ≡ ok true
          → (m : M) → IsProven b m
          → Q m)
      → (before : List M) → All Q before
      → All Q (handle_finality_notification env o n before).1
  unfolding handle_finality_notification handle_block
  handle_finality_notification-All Q n proven before all =
      elim (Result-cases (notified_block env.frost n)) [
        | inr (e, bad) ↦ rw (bad, handle_finality_notification) all
        | inl (b, noted) ↦
            elim (Result-cases (is_final env.frost o.finality.config env.moments b)) [
              | inr (e, failed) ↦ rw (noted, failed, handle_finality_notification, handle_block) all
              | inl (final, said) ↦ elim (Bool-cases final) [
                | inr pending ↦
                    rw (noted, said, pending, handle_finality_notification, handle_block) all
                | inl finalized ↦
                    rw (noted, said, finalized, handle_finality_notification, handle_block)
                      (process_targets-All Q b (proven b noted (said ∙ ap ok finalized))
                        o.watch_targets (λ t h. h) before all)
              ]
            ]
      ]

module _ {C P M V F Event : Type 0} ⦃fl : Float F⦄ (g : Grandpa V) where
  -- The client of this repository answers the three awaits, each at its own state of the chain.
  pub record IsAnswered (env : Env C P M F Event) : Type 0 where
    pub at_hash : Snapshot V F
    pub at_confidence : Snapshot V F
    pub at_rules : Snapshot V F
    pub answers : env.moments ≡ moments g env.frost at_hash at_confidence at_rules

  module _ (worker : SsmpWorker C P M V F) where
    -- The notification that a message goes back to, its block and the chain that found it final.
    pub record Origin (stream : List (Env C P M F Event × FinalityNotification)) (m : M)
        : Type 0 where
      pub env : Env C P M F Event
      pub notification : FinalityNotification
      pub received : Memᴰ (env, notification) stream
      pub block : BlockRef C
      pub noted : notified_block env.frost notification ≡ ok block
      pub proven : IsProven env worker.observer block m
      pub answered : IsAnswered env
      pub header : Header
      pub found : HasHeader answered.at_rules.chain block.hash header
      pub confirmed :
          header.number + min worker.observer.finality.config.min_confirmations g.max_number
          ≤ answered.at_rules.chain.info.finalized_number
