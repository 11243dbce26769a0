-- ===== src/Observer/Failed.antt =====
-- The runs over the targets that fail, described without the loop.
use frost_substrate.Prelude.{
  ◌≡◌, ◌↔◌, refl, sym, ap, ◌∙◌, inl, inr, true, some, String, List, [], ◌∷◌, ◌++◌, append_assoc,
  append-nil, adds_nothing, ok, err, Fault, error, Result-cases, Option-cases, Bool-cases,
}
use frost_substrate.External.Float.{Float}
use frost_substrate.External.Frost.{BlockRef}
use frost_substrate.Observer.{
  WatchTarget, MessageRouter, Observer, ProtocolError, protocol_error, message_routing_failed,
}
use frost_substrate.Observer.Matching.{matches_watch_target}
use frost_substrate.Observer.Notify.{Env, route, prove_target, process_target, process_targets}
use frost_substrate.Observer.Delivery.{process_targets-cons_ok, process_targets-cons_err}
use frost_substrate.Observer.Delivered.{
  Delivered, done, skipped, kept, sent, go_on, process_target-Delivered,
}

module _ {C P M V F Event : Type 0} ⦃fl : Float F⦄ (env : Env C P M F Event)
    (o : Observer C P M V F) (b : BlockRef C) where
  -- How a target ends the loop, and what it has handed over: the events cannot be matched, or the proof
  -- cannot be made, or the router refuses the message, which it has then been given.
  pub data Fails (t : WatchTarget) (e : Fault (ProtocolError C)) (last : List M) : Type 0 where
    unmatched :
        matches_watch_target env.encode_event env.api b t ≡ err e → last ≡ [] → Fails t e last
    unproved :
        matches_watch_target env.encode_event env.api b t ≡ ok true
        → prove_target env o b t ≡ err e
        → last ≡ []
        → Fails t e last
    refused :
        (m : M) (router : MessageRouter M) (reason : String)
        → matches_watch_target env.encode_event env.api b t ≡ ok true
        → prove_target env o b t ≡ ok m
        → o.message_router ≡ some router
        → router.route_message m ≡ err reason
        → e ≡ error (protocol_error message_routing_failed)
        → last ≡ m ∷ []
        → Fails t e last

  Fails-process_target :
      {t : WatchTarget} {e : Fault (ProtocolError C)} {last : List M}
      → Fails t e last
      → (before : List M) → process_target env o b t before ≡ (err e, before ++ last)
  unfolding process_target route
  Fails-process_target {e = e} (unmatched failed nothing) before =
      rw (failed, nothing, process_target) (adds_nothing (err e) before)
  Fails-process_target {e = e} (unproved a_match failed nothing) before =
      rw (a_match, failed, nothing, process_target) (adds_nothing (err e) before)
  Fails-process_target (refused m router reason a_match proved routed no_thanks same given) before =
      rw (a_match, proved, routed, no_thanks, same, given, process_target, route)

  process_target-Fails :
      (t : WatchTarget) (before : List M) {e : Fault (ProtocolError C)}
      → (process_target env o b t before).0 ≡ err e
      → (last : List M) × Fails t e last × ((process_target env o b t before).1 ≡ before ++ last)
  unfolding process_target route
  process_target-Fails t before {e} h =
      elim (Result-cases (matches_watch_target env.encode_event env.api b t)) [
        | inr (x, failed) ↦
            let same : x ≡ e = cc (rw (failed, process_target) at h) in
            (
              [],
              unmatched (failed ∙ ap err same) refl,
              rw (failed, process_target) (sym (append-nil before)),
            )
        | inl (m, said) ↦ elim (Bool-cases m) [
          | inr no_match ↦ cc (rw (said ∙ ap ok no_match, process_target) at h)
          | inl is_match ↦
              let a_match = said ∙ ap ok is_match in
              elim (Result-cases (prove_target env o b t)) [
                | inr (x, failed) ↦
                    let same : x ≡ e = cc (rw (a_match, failed, process_target) at h) in
                    (
                      [],
                      unproved a_match (failed ∙ ap err same) refl,
                      rw (a_match, failed, process_target) (sym (append-nil before)),
                    )
                | inl (message, proved) ↦ elim (Option-cases o.message_router) [
                  | inl alone ↦ cc (rw (a_match, proved, alone, process_target, route) at h)
                  | inr (router, routed) ↦ elim (Result-cases (router.route_message message)) [
                    | inl (u, accepted) ↦
                        cc (rw (a_match, proved, routed, accepted, process_target, route) at h)
                    | inr (reason, no_thanks) ↦
                        let same : e ≡ error (protocol_error message_routing_failed) =
                          cc
                            (rw (a_match, proved, routed, no_thanks, process_target, route) at h) in
                        (
                          message ∷ [],
                          refused message router reason a_match proved routed no_thanks same refl,
                          rw (a_match, proved, routed, process_target, route),
                        )
                  ]
                ]
              ]
        ]
      ]

  -- Targets that go through leave the others to be gone through.
  Delivered-process_targets_append :
      {us : List WatchTarget} {ms : List M}
      → Delivered env o b us ms
      → (vs : List WatchTarget) (before : List M)
      → process_targets env o b (us ++ vs) before ≡ process_targets env o b vs (before ++ ms)
  unfolding process_target route
  Delivered-process_targets_append done vs before =
      ap (process_targets env o b vs) (sym (append-nil before))
  Delivered-process_targets_append (skipped {t = t} {ts = ts} no_match rest) vs before =
      go_on env o b t (ts ++ vs) before (rw (no_match, process_target))
      ∙ Delivered-process_targets_append rest vs before
  Delivered-process_targets_append (kept {t = t} {ts = ts} m a_match proved alone rest) vs before =
      go_on env o b t (ts ++ vs) before (rw (a_match, proved, alone, process_target, route))
      ∙ Delivered-process_targets_append rest vs before
  Delivered-process_targets_append
        (sent {t = t} {ts = ts} {ms = ms} m router a_match proved routed accepted rest) vs before =
      go_on env o b t (ts ++ vs) before
        (rw (a_match, proved, routed, accepted, process_target, route))
      ∙ Delivered-process_targets_append rest vs (before ++ m ∷ [])
      ∙ ap (process_targets env o b vs) (append_assoc before (m ∷ []) ms)

  -- The targets up to the one that fails, what was handed over for them, and the failure.
  pub record Stops (ts : List WatchTarget) (e : Fault (ProtocolError C)) (new : List M)
      : Type 0 where
    pub served : List WatchTarget
    pub failing : WatchTarget
    pub behind : List WatchTarget
    pub split : ts ≡ served ++ failing ∷ behind
    pub messages : List M
    pub delivered : Delivered env o b served messages
    pub last : List M
    pub fails : Fails failing e last
    pub new_eq : new ≡ messages ++ last

  process_targets-Stops :
      (ts : List WatchTarget) (before after : List M) (e : Fault (ProtocolError C))
      → process_targets env o b ts before ≡ (err e, after)
      → (new : List M) × Stops ts e new × (after ≡ before ++ new)
  unfolding process_targets
  process_targets-Stops [] before after e h = absurd (cc (ap (λ r. r.0) h))
  process_targets-Stops (t ∷ ts) before after e h =
      let next = (process_target env o b t before).1 in
      elim (Result-cases (process_target env o b t before).0) [
        | inr (x, failed) ↦
            let stopped = sym (process_targets-cons_err env o b t ts before failed) ∙ h in
            let same : x ≡ e = cc (ap (λ r. r.0) stopped) in
            let (last, fails, gave) = process_target-Fails t before (failed ∙ ap err same) in
            (
              last,
              record {
                served = [];
                failing = t;
                behind = ts;
                split = refl;
                messages = [];
                delivered = done;
                last = last;
                fails = fails;
                new_eq = refl;
              },
              sym (ap (λ r. r.1) stopped) ∙ gave,
            )
        | inl (u, went) ↦
            let went_on = sym (process_targets-cons_ok env o b t ts before went) ∙ h in
            let (new, s, after_eq) = process_targets-Stops ts next after e went_on in
            let (ms, all, eq) =
              process_target-Delivered env o b t s.served s.messages before went s.delivered in
            (
              ms ++ s.last,
              record {
                served = t ∷ s.served;
                failing = s.failing;
                behind = s.behind;
                split = ap (◌∷◌ t) s.split;
                messages = ms;
                delivered = all;
                last = s.last;
                fails = s.fails;
                new_eq = refl;
              },
              after_eq
                  ∙ ap (◌++◌ next) s.new_eq
                  ∙ sym (append_assoc next s.messages s.last)
                  ∙ ap (λ l. l ++ s.last) eq
                  ∙ append_assoc before ms s.last,
            )
      ]

  -- The loop over the targets fails exactly when a target fails after others that go through: its events
  -- cannot be matched, its proof cannot be made, or the router refuses its message. The error is that
  -- target's, the targets behind it are not looked at, and the router has been handed the messages of
  -- the targets before it, and after them the refused one.
  pub process_targets_failed_iff :
      (ts : List WatchTarget) (before after : List M) (e : Fault (ProtocolError C))
      → (process_targets env o b ts before ≡ (err e, after))
        ↔ ((new : List M) × Stops ts e new × (after ≡ before ++ new))
  process_targets_failed_iff ts before after e = (
    process_targets-Stops ts before after e,
    λ i.
        let (new, s, after_eq) = i in
        ap (λ l. process_targets env o b l before) s.split
        ∙ Delivered-process_targets_append s.delivered (s.failing ∷ s.behind) before
        ∙ process_targets-cons_err env o b s.failing s.behind (before ++ s.messages)
            (ap (λ r. r.0) (Fails-process_target s.fails (before ++ s.messages)))
        ∙ ap (λ r. (err e, r.1)) (Fails-process_target s.fails (before ++ s.messages))
        ∙ ap (λ l. (err e, l))
            (append_assoc before s.messages s.last
              ∙ ap (◌++◌ before) (sym s.new_eq)
              ∙ sym after_eq),
  )
