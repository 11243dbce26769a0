-- ===== src/Observer/Delivery.antt =====
-- Which messages a notification hands to the router.
use frost_substrate.Prelude.{
  adds_nothing, ◌≡◌, refl, sym, ap, ◌∙◌, inl, inr, Option, none, some, List, [], ◌∷◌, ◌++◌,
  append_assoc, ok, err, Fault, error, Result-cases, Bool-cases,
}
use frost_substrate.External.Float.{Float}
use frost_substrate.External.Frost.{BlockRef}
use frost_substrate.Finality.Predicate.{is_final}
use frost_substrate.Observer.{from_finality, ProtocolError, WatchTarget, MessageRouter, Observer}
use frost_substrate.Observer.Matching.{matches_watch_target}
use frost_substrate.Observer.Notify.{
  notified_block, FinalityNotification, Env, Run, route, prove_target, process_target,
  process_targets, handle_block, handle_finality_notification,
}

-- A run only adds to what was handed over, and does not read it.
abbrev pub OnlyAdds : {C M : Type 0} → Run C M → Type 0
OnlyAdds {C} {M} r = (sent : List M) → r sent ≡ ((r []).0, sent ++ (r []).1)

route-OnlyAdds :
    {C M : Type 0} (router : Option (MessageRouter M)) (m : M) → OnlyAdds (route {C = C} router m)
unfolding route
route-OnlyAdds none m sent = adds_nothing (ok tt) sent
route-OnlyAdds (some router) m sent = refl

module _ {C P M V F Event : Type 0} ⦃fl : Float F⦄ (env : Env C P M F Event)
    (o : Observer C P M V F) where
  process_target-OnlyAdds : (b : BlockRef C) (t : WatchTarget) → OnlyAdds (process_target env o b t)
  unfolding process_target
  process_target-OnlyAdds b t sent =
      elim (Result-cases (matches_watch_target env.encode_event env.api b t)) [
        | inr (e, failed) ↦ rw (failed, process_target) (adds_nothing (err e) sent)
        | inl (m, said) ↦ elim (Bool-cases m) [
          | inr no_match ↦ rw (said, no_match, process_target) (adds_nothing (ok tt) sent)
          | inl a_match ↦ elim (Result-cases (prove_target env o b t)) [
            | inr (e, failed) ↦
                rw (said, a_match, failed, process_target) (adds_nothing (err e) sent)
            | inl (message, proved) ↦
                rw (said, a_match, proved, process_target)
                  (route-OnlyAdds o.message_router message sent)
          ]
        ]
      ]

  pub process_targets-cons_ok :
      (b : BlockRef C) (t : WatchTarget) (ts : List WatchTarget) (sent : List M) {u : Unit {0}}
      → (process_target env o b t sent).0 ≡ ok u
      → process_targets env o b (t ∷ ts) sent
        ≡ process_targets env o b ts (process_target env o b t sent).1
  unfolding process_targets
  process_targets-cons_ok b t ts sent e = rw (e, process_targets)

  pub process_targets-cons_err :
      (b : BlockRef C) (t : WatchTarget) (ts : List WatchTarget) (sent : List M)
      {e : Fault (ProtocolError C)}
      → (process_target env o b t sent).0 ≡ err e
      → process_targets env o b (t ∷ ts) sent ≡ (err e, (process_target env o b t sent).1)
  unfolding process_targets
  process_targets-cons_err b t ts sent h = rw (h, process_targets)

  pub process_targets-OnlyAdds :
      (b : BlockRef C) (ts : List WatchTarget) → OnlyAdds (process_targets env o b ts)
  unfolding process_targets
  process_targets-OnlyAdds b [] sent = adds_nothing (ok tt) sent
  process_targets-OnlyAdds b (t ∷ ts) sent =
      let adds = process_target-OnlyAdds b t sent in
      let new = (process_target env o b t []).1 in
      elim (Result-cases (process_target env o b t []).0) [
        | inr (e, failed) ↦
            process_targets-cons_err b t ts sent (ap (λ r. r.0) adds ∙ failed)
            ∙ ap (λ r. (err e, r.1)) adds
            ∙ sym (ap (λ r. (r.0, sent ++ r.1)) (process_targets-cons_err b t ts [] failed))
        | inl (u, went) ↦
            process_targets-cons_ok b t ts sent (ap (λ r. r.0) adds ∙ went)
            ∙ ap (λ r. process_targets env o b ts r.1) adds
            ∙ process_targets-OnlyAdds b ts (sent ++ new)
            ∙ ap (λ s. ((process_targets env o b ts []).0, s))
                (append_assoc sent new (process_targets env o b ts []).1)
            ∙ sym (
                ap (λ r. (r.0, sent ++ r.1))
                  (process_targets-cons_ok b t ts [] went ∙ process_targets-OnlyAdds b ts new))
      ]

  pub handle_finality_notification-OnlyAdds :
      (n : FinalityNotification) → OnlyAdds (handle_finality_notification env o n)
  unfolding handle_finality_notification
  handle_finality_notification-OnlyAdds n sent = elim (Result-cases (notified_block env.frost n)) [
    | inr (e, bad) ↦ rw (bad, handle_finality_notification) (adds_nothing (err (error e)) sent)
    | inl (b, good) ↦ elim (Result-cases (is_final env.frost o.finality.config env.moments b)) [
      | inr (e, failed) ↦
          rw (good, failed, handle_finality_notification, handle_block)
            (adds_nothing (err (error (from_finality e))) sent)
      | inl (final, said) ↦ elim (Bool-cases final) [
        | inr pending ↦
            rw (good, said, pending, handle_finality_notification, handle_block)
              (adds_nothing (ok tt) sent)
        | inl finalized ↦
            rw (good, said, finalized, handle_finality_notification, handle_block)
              (process_targets-OnlyAdds b o.watch_targets sent)
      ]
    ]
  ]
