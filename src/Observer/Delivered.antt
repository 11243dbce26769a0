-- ===== src/Observer/Delivered.antt =====
-- The messages of a run that succeeds, described without the loop; and what the Merkle generator does to
-- every run.
use frost_substrate.Prelude.{
  adds_nothing, ℕ, ◌≡◌, ◌≢◌, refl, sym, ap, ◌∙◌, ◌↔◌, inl, inr, true, false, none, some, List, [],
  ◌∷◌, ◌++◌, append_assoc, append-nil, arith, ok, Result-cases, Option-cases, Bool-cases, map_err,
  >>=-eq-ok, map_err-eq-ok,
}
use frost_substrate.External.Float.{Float}
use frost_substrate.External.Frost.{BlockRef}
use frost_substrate.External.State.{IsStates, States}
use frost_substrate.Finality.Client.Queries.{to_hash_array}
use frost_substrate.Finality.Predicate.{is_final}
use frost_substrate.Observer.{lift, WatchTarget, MessageRouter, Observer}
use frost_substrate.Observer.Matching.{matches_watch_target}
use frost_substrate.Observer.Notify.{
  notified_block, FinalityNotification, Env, route, prove_target, process_target, process_targets,
  handle_block, handle_finality_notification,
}
use frost_substrate.Observer.Transition.{SsmpStateTransition, generate_state_transition}
use frost_substrate.Observer.Delivery.{process_targets-cons_ok, process_targets-cons_err}
use frost_substrate.Proof.{Surroundings, config_default}
use frost_substrate.Proof.Merkle.{merkle_generator}
use frost_substrate.Proof.Outcomes.{generate_merkle_proof_without_data}

module _ {C P M V F Event : Type 0} ⦃fl : Float F⦄ (env : Env C P M F Event)
    (o : Observer C P M V F) (b : BlockRef C) where
  -- A target is passed over if no event of the block matches it; a matching one gets its proof, and its
  -- message goes to the router, if there is one, which accepts it.
  pub data Delivered : List WatchTarget → List M → Type 0 where
    done : Delivered [] []
    skipped :
        {t : WatchTarget} {ts : List WatchTarget} {ms : List M}
        → matches_watch_target env.encode_event env.api b t ≡ ok false
        → Delivered ts ms
        → Delivered (t ∷ ts) ms
    kept :
        {t : WatchTarget} {ts : List WatchTarget} {ms : List M} (m : M)
        → matches_watch_target env.encode_event env.api b t ≡ ok true
        → prove_target env o b t ≡ ok m
        → o.message_router ≡ none
        → Delivered ts ms
        → Delivered (t ∷ ts) ms
    sent :
        {t : WatchTarget} {ts : List WatchTarget} {ms : List M} (m : M) (router : MessageRouter M)
        → matches_watch_target env.encode_event env.api b t ≡ ok true
        → prove_target env o b t ≡ ok m
        → o.message_router ≡ some router
        → router.route_message m ≡ ok tt
        → Delivered ts ms
        → Delivered (t ∷ ts) (m ∷ ms)

  pub go_on :
      (t : WatchTarget) (ts : List WatchTarget) (before : List M) {after : List M}
      → process_target env o b t before ≡ (ok tt, after)
      → process_targets env o b (t ∷ ts) before ≡ process_targets env o b ts after
  go_on t ts before e =
      process_targets-cons_ok env o b t ts before (ap (λ r. r.0) e)
      ∙ ap (λ r. process_targets env o b ts r.1) e

  Delivered-process_targets :
      {ts : List WatchTarget} {ms : List M}
      → Delivered ts ms
      → (before : List M) → process_targets env o b ts before ≡ (ok tt, before ++ ms)
  unfolding process_targets process_target route
  Delivered-process_targets done before = adds_nothing (ok tt) before
  Delivered-process_targets (skipped {t = t} {ts = ts} no_match rest) before =
      go_on t ts before (rw (no_match, process_target)) ∙ Delivered-process_targets rest before
  Delivered-process_targets (kept {t = t} {ts = ts} m a_match proved alone rest) before =
      go_on t ts before (rw (a_match, proved, alone, process_target, route))
      ∙ Delivered-process_targets rest before
  Delivered-process_targets
        (sent {t = t} {ts = ts} {ms = ms} m router a_match proved routed accepted rest) before =
      go_on t ts before (rw (a_match, proved, routed, accepted, process_target, route))
      ∙ Delivered-process_targets rest (before ++ m ∷ [])
      ∙ ap (λ s. (ok tt, s)) (append_assoc before (m ∷ []) ms)

  -- What a round that succeeds did, put before what the later rounds did.
  pub process_target-Delivered :
      (t : WatchTarget) (ts : List WatchTarget) (ms before : List M) {u : Unit {0}}
      → (process_target env o b t before).0 ≡ ok u
      → Delivered ts ms
      → (ms' : List M) × Delivered (t ∷ ts) ms'
        × ((process_target env o b t before).1 ++ ms ≡ before ++ ms')
  unfolding process_target route
  process_target-Delivered t ts ms before e rest =
      elim (Result-cases (matches_watch_target env.encode_event env.api b t)) [
        | inr (x, failed) ↦ cc (rw (failed, process_target) at e)
        | inl (m, said) ↦ elim (Bool-cases m) [
          | inr no_match ↦
              let no_match' = said ∙ ap ok no_match in
              (ms, skipped no_match' rest, rw (no_match', process_target))
          | inl a_match ↦
              let a_match' = said ∙ ap ok a_match in
              elim (Result-cases (prove_target env o b t)) [
                | inr (x, failed) ↦ cc (rw (a_match', failed, process_target) at e)
                | inl (message, proved) ↦ elim (Option-cases o.message_router) [
                  | inl alone ↦ (
                    ms,
                    kept message a_match' proved alone rest,
                    rw (a_match', proved, alone, process_target, route),
                  )
                  | inr (router, routed) ↦ elim (Result-cases (router.route_message message)) [
                    | inr (x, refused) ↦
                        cc (rw (a_match', proved, routed, refused, process_target, route) at e)
                    | inl (v, accepted) ↦ (
                      message ∷ ms,
                      sent message router a_match' proved routed accepted rest,
                      rw (a_match', proved, routed, process_target, route)
                          (append_assoc before (message ∷ []) ms),
                    )
                  ]
                ]
              ]
        ]
      ]

  process_targets-Delivered :
      (ts : List WatchTarget) (before : List M) {after : List M}
      → process_targets env o b ts before ≡ (ok tt, after)
      → (ms : List M) × Delivered ts ms × (after ≡ before ++ ms)
  unfolding process_targets
  process_targets-Delivered [] before e =
      ([], done, sym (ap (λ r. r.1) e) ∙ sym (append-nil before))
  process_targets-Delivered (t ∷ ts) before e =
      let next = (process_target env o b t before).1 in
      elim (Result-cases (process_target env o b t before).0) [
        | inr (x, failed) ↦
            let stopped = sym (process_targets-cons_err env o b t ts before failed) ∙ e in
            cc (ap (λ r. r.0) stopped)
        | inl (u, went) ↦
            let went_on = sym (process_targets-cons_ok env o b t ts before went) ∙ e in
            let (ms, rest, after_eq) = process_targets-Delivered ts next went_on in
            let (ms', all, eq) = process_target-Delivered t ts ms before went rest in
            (ms', all, after_eq ∙ eq)
      ]

  -- The loop over the targets succeeds exactly when the targets can be gone through one by one, each
  -- passed over or proved, and each proof accepted by the router if there is one; it then hands over
  -- just the messages of the proved targets, in the order of the targets.
  pub process_targets_iff :
      (ts : List WatchTarget) (before after : List M)
      → (process_targets env o b ts before ≡ (ok tt, after))
        ↔ ((ms : List M) × Delivered ts ms × (after ≡ before ++ ms))
  process_targets_iff ts before after = (
    process_targets-Delivered ts before,
    λ i. let (ms, d, e) = i in Delivered-process_targets d before ∙ ap (λ s. (ok tt, s)) (sym e),
  )

generate_state_transition-bare :
    {C P : Type 0} (st : States C P) (now : ℕ) (b : BlockRef C) (t : WatchTarget)
    {transition : SsmpStateTransition C}
    → generate_state_transition st now b t ≡ ok transition
    → transition.inner.transition_proof ≡ none
unfolding generate_state_transition
generate_state_transition-bare st now b t e =
    let (hash, sized, made) = >>=-eq-ok (to_hash_array _ b.hash) _ e in ground (arith, made)

module _ {C P M V F Event : Type 0} ⦃fl : Float F⦄ (env : Env C P M F Event)
    (o : Observer C P M V F) (world : Surroundings) (laws : IsStates C P env.states)
    (merkle : o.proof_generator ≡ merkle_generator env.states world) where
  prove_target_never : (b : BlockRef C) (t : WatchTarget) (m : M) → prove_target env o b t ≢ ok m
  unfolding prove_target
  prove_target_never b t m e =
      let (transition, made, e1) =
        >>=-eq-ok (lift (generate_state_transition env.states env.now b t)) _ e in
      let (proof, proved, e2) =
        >>=-eq-ok (map_err _ (o.proof_generator.generate_proof transition.inner config_default)) _
          e1 in
      let generated = map_err-eq-ok _ _ proved in
      generate_merkle_proof_without_data env.states world laws transition.inner config_default proof
        (generate_state_transition-bare env.states env.now b t (map_err-eq-ok _ _ made))
        (rw merkle at generated)

  process_target_silent :
      (b : BlockRef C) (t : WatchTarget) (before : List M)
      → (process_target env o b t before).1 ≡ before
  unfolding process_target
  process_target_silent b t before =
      elim (Result-cases (matches_watch_target env.encode_event env.api b t)) [
        | inr (x, failed) ↦ rw (failed, process_target)
        | inl (m, said) ↦ elim (Bool-cases m) [
          | inr no_match ↦ rw (said, no_match, process_target)
          | inl a_match ↦ elim (Result-cases (prove_target env o b t)) [
            | inr (x, failed) ↦ rw (said, a_match, failed, process_target)
            | inl (message, proved) ↦ absurd (prove_target_never b t message proved)
          ]
        ]
      ]

  process_targets_silent :
      (b : BlockRef C) (ts : List WatchTarget) (before : List M)
      → (process_targets env o b ts before).1 ≡ before
  unfolding process_targets
  process_targets_silent b [] before = refl
  process_targets_silent b (t ∷ ts) before =
      elim (Result-cases (process_target env o b t before).0) [
        | inr (x, failed) ↦
            ap (λ r. r.1) (process_targets-cons_err env o b t ts before failed)
            ∙ process_target_silent b t before
        | inl (u, went) ↦
            ap (λ r. r.1) (process_targets-cons_ok env o b t ts before went)
            ∙ process_targets_silent b ts _
            ∙ process_target_silent b t before
      ]

  -- An observer with the Merkle generator hands nothing to its router, whatever the notification, the
  -- targets, the events and the chain: the transition that the observer makes bears no state data, so
  -- no matching target gets a proof.
  pub merkle_observer_silent :
      (n : FinalityNotification) (before : List M)
      → (handle_finality_notification env o n before).1 ≡ before
  unfolding handle_finality_notification
  merkle_observer_silent n before = elim (Result-cases (notified_block env.frost n)) [
    | inr (e, bad) ↦ rw (bad, handle_finality_notification)
    | inl (b, good) ↦ elim (Result-cases (is_final env.frost o.finality.config env.moments b)) [
      | inr (e, failed) ↦ rw (good, failed, handle_finality_notification, handle_block)
      | inl (final, said) ↦ elim (Bool-cases final) [
        | inr pending ↦ rw (good, said, pending, handle_finality_notification, handle_block)
        | inl finalized ↦
            rw (good, said, finalized, handle_finality_notification, handle_block)
              (process_targets_silent b o.watch_targets before)
      ]
    ]
  ]
