-- ===== src/Observer/Calm.antt =====
-- Where no target makes the code panic.
use frost_substrate.Prelude.{
  ◌≢◌, ◌>>=◌, refl, ap, inl, inr, true, false, none, some, Option, List, [], ◌∷◌, Bytes, Result, ok,
  err, Fault, panic, Result-cases, Bool-cases, Option-cases, not, ◌||◌,
}
use mathlib.Core.List.{Memᴰ}
use frost_substrate.External.Float.{Float}
use frost_substrate.External.Frost.{BlockRef}
use frost_substrate.External.State.{StateTransition}
use frost_substrate.Observer.Transition.{into_transition, generate_state_transition}
use frost_substrate.Finality.Predicate.{is_final}
use frost_substrate.Observer.{error, ProofGenerator, WatchTarget, Observer}
use frost_substrate.Observer.Delivery.{process_targets-cons_ok, process_targets-cons_err}
use frost_substrate.Observer.Matching.{
  has_window, has_hash, generic_event_match, any_event_matches, matches_watch_target,
}
use frost_substrate.Observer.Notify.{
  FinalityNotification, Env, notified_block, prove_target, route, process_target, process_targets,
  handle_block, handle_finality_notification,
}
use frost_substrate.Observer.Windows.{IsSearchable}
use frost_substrate.Proof.{ProofGenerator, config_default}
use frost_substrate.RuntimeApi.{EventRecord, SsmpApi}

-- A result that is no panic.
abbrev pub IsCalm : {E A : Type 0} → Result (Fault E) A → Type 0
IsCalm r = r ≢ err panic

>>=-IsCalm :
    {E A B : Type 0} (r : Result (Fault E) A) (f : A → Result (Fault E) B)
    → IsCalm r
    → ((a : A) → IsCalm (f a))
    → IsCalm (r >>= f)
>>=-IsCalm (ok a) f calm then_calm = then_calm a
>>=-IsCalm (err e) f calm then_calm = λ h. calm (cc h)

err-IsCalm : {E A B : Type 0} (e : Fault E) → IsCalm {A = A} (err e) → IsCalm {A = B} (err e)
err-IsCalm e calm = λ h. calm (cc h)

has_window-IsCalm :
    {E : Type 0} (name bytes : Bytes) → name ≢ [] → IsCalm (has_window {E = E} name bytes)
unfolding has_window
has_window-IsCalm [] bytes filled = absurd (filled refl)
has_window-IsCalm (b ∷ name) bytes filled = λ h. cc h

module _ {C Event : Type 0} (encode : Event → Bytes) (t : WatchTarget) (s : IsSearchable t) where
  has_hash-IsCalm :
      (hash : Option Bytes) (bytes : Bytes)
      → hash ≢ some []
      → IsCalm (has_hash {C = C} encode hash bytes)
  has_hash-IsCalm none bytes filled = λ h. cc h
  has_hash-IsCalm (some hash) bytes filled = has_window-IsCalm hash bytes (λ e. filled (ap some e))

  generic_event_match-IsCalm : (event : Event) → IsCalm (generic_event_match {C = C} encode event t)
  unfolding generic_event_match
  generic_event_match-IsCalm event =
      >>=-IsCalm _ _ (has_window-IsCalm t.module_name (encode event) s.module_named) (λ m.
        >>=-IsCalm _ _ (has_window-IsCalm t.function_name (encode event) s.function_named) (λ f.
          elim (Bool-cases (not m || not f)) [
            | inl absent ↦ rw absent (λ h. cc h)
            | inr present ↦ rw present (has_hash-IsCalm t.message_hash (encode event) s.hash_filled)
          ]))

  any_event_matches-IsCalm :
      (events : List (EventRecord Event)) → IsCalm (any_event_matches {C = C} encode events t)
  unfolding any_event_matches
  any_event_matches-IsCalm [] = λ h. cc h
  any_event_matches-IsCalm (r ∷ rest) = >>=-IsCalm _ _ (generic_event_match-IsCalm r.event) (λ m.
      elim (Bool-cases m) [
        | inl a_match ↦ rw a_match (λ h. cc h)
        | inr no_match ↦ rw no_match (any_event_matches-IsCalm rest)
      ])

  matches_watch_target-IsCalm :
      (api : SsmpApi Event) (b : BlockRef C) → IsCalm (matches_watch_target encode api b t)
  unfolding matches_watch_target
  matches_watch_target-IsCalm api b =
      >>=-IsCalm _ _
        (elim (Result-cases (api.events b.hash)) [
          | inl (events, there) ↦ rw there (λ h. cc h)
          | inr (e, failed) ↦ rw failed (λ h. cc h)
        ])
        any_event_matches-IsCalm

-- A generator that does not panic under the configuration that the observer gives it.
abbrev pub IsCalmGenerator : {C P : Type 0} → ProofGenerator C P → Type 0
IsCalmGenerator {C} gen =
    (transition : StateTransition C) → IsCalm (gen.generate_proof transition config_default)

module _ {C P M V F Event : Type 0} ⦃fl : Float F⦄ (env : Env C P M F Event)
    (o : Observer C P M V F) (generates : IsCalmGenerator o.proof_generator) where
  prove_target-IsCalm : (b : BlockRef C) (t : WatchTarget) → IsCalm (prove_target env o b t)
  unfolding prove_target generate_state_transition
  prove_target-IsCalm b t = elim (Result-cases (generate_state_transition env.states env.now b t)) [
    | inr (e, failed) ↦ rw (failed, prove_target) (λ h. cc h)
    | inl (transition, made) ↦
        let calm = generates (into_transition transition) in
        elim (Result-cases
          (o.proof_generator.generate_proof (into_transition transition) config_default)) [
            | inl (proof, given) ↦ rw (made, given, prove_target) (λ h. cc h)
            | inr (error e, failed) ↦ rw (made, failed, prove_target) (λ h. cc h)
            | inr (panic, failed) ↦ absurd (calm failed)
          ]
  ]

  process_target-IsCalm :
      (b : BlockRef C) (t : WatchTarget)
      → IsSearchable t
      → (sent : List M) → IsCalm (process_target env o b t sent).0
  unfolding process_target route
  process_target-IsCalm b t s sent =
      let calm = matches_watch_target-IsCalm env.encode_event t s env.api b in
      elim (Result-cases (matches_watch_target env.encode_event env.api b t)) [
        | inr (e, failed) ↦ rw (failed, process_target) (err-IsCalm e (rw failed at calm))
        | inl (m, said) ↦ elim (Bool-cases m) [
          | inr no_match ↦ rw (said, no_match, process_target) (λ h. cc h)
          | inl a_match ↦ elim (Result-cases (prove_target env o b t)) [
            | inr (e, failed) ↦
                let proving = prove_target-IsCalm b t in
                rw (said, a_match, failed, process_target) (err-IsCalm e (rw failed at proving))
            | inl (message, proved) ↦ elim (Option-cases o.message_router) [
              | inl alone ↦ rw (said, a_match, proved, alone, process_target, route) (λ h. cc h)
              | inr (router, routed) ↦ elim (Result-cases (router.route_message message)) [
                | inl (u, took) ↦
                    rw (said, a_match, proved, routed, took, process_target, route) (λ h. cc h)
                | inr (e, refused) ↦
                    rw (said, a_match, proved, routed, refused, process_target, route) (λ h. cc h)
              ]
            ]
          ]
        ]
      ]

  process_targets-IsCalm :
      (b : BlockRef C) (ts : List WatchTarget)
      → ((t : WatchTarget) → Memᴰ t ts → IsSearchable t)
      → (sent : List M) → IsCalm (process_targets env o b ts sent).0
  unfolding process_targets
  process_targets-IsCalm b [] searchable sent = λ h. cc h
  process_targets-IsCalm b (t ∷ ts) searchable sent =
      let calm = process_target-IsCalm b t (searchable t (Memᴰ.head refl)) sent in
      elim (Result-cases (process_target env o b t sent).0) [
        | inr (e, failed) ↦
            rw (process_targets-cons_err env o b t ts sent failed) (rw failed at calm)
        | inl (u, went) ↦
            rw (process_targets-cons_ok env o b t ts sent went)
              (process_targets-IsCalm b ts (λ v h. searchable v (Memᴰ.tail h)) _)
      ]

  -- A notification at which every target can be searched for, by a generator that does not panic, ends without a panic.
  pub handle_finality_notification-IsCalm :
      (n : FinalityNotification)
      → ((t : WatchTarget) → Memᴰ t o.watch_targets → IsSearchable t)
      → (sent : List M) → IsCalm (handle_finality_notification env o n sent).0
  unfolding handle_finality_notification handle_block
  handle_finality_notification-IsCalm n searchable sent =
      elim (Result-cases (notified_block env.frost n)) [
        | inr (e, bad) ↦ rw (bad, handle_finality_notification) (λ h. cc h)
        | inl (b, noted) ↦
            elim (Result-cases (is_final env.frost o.finality.config env.moments b)) [
              | inr (e, failed) ↦
                  rw (noted, failed, handle_finality_notification, handle_block) (λ h. cc h)
              | inl (true, said) ↦
                  rw (noted, said, handle_finality_notification, handle_block)
                    (process_targets-IsCalm b o.watch_targets searchable sent)
              | inl (false, said) ↦
                  rw (noted, said, handle_finality_notification, handle_block) (λ h. cc h)
            ]
      ]
