-- ===== src/Observer/Undisturbed.antt =====
-- Registrations do not change what the worker is at, once it has cloned the targets.
use frost_substrate.Prelude.{
  Result, Fault, ◌≡◌, refl, sym, ap, ◌∙◌, inl, inr, true, false, List, [], ◌∷◌, ◌++◌, map, ok, err,
  Result-cases,
}
use frost_substrate.External.Float.{Float}
use frost_substrate.External.Frost.{BlockRef}
use frost_substrate.Finality.Predicate.{is_final}
use frost_substrate.Observer.{ProtocolError, WatchTarget, Observer, register_target}
use frost_substrate.Observer.Notify.{
  FinalityNotification, Env, notified_block, prove_target, process_target, process_targets,
  handle_block, handle_finality_notification,
}
use frost_substrate.Observer.Delivery.{process_targets-cons_ok, process_targets-cons_err}
use frost_substrate.Observer.Turns.{
  Received, Progress, idle, started, cleared, looping, gone, Worker, Turn, registers, after_await,
  after_result, registered_in, run_wholes,
}

module _ {C P M V F : Type 0} where
  abbrev pub register_all : List WatchTarget → Observer C P M V F → Observer C P M V F
  register_all [] o = o
  register_all (t ∷ ts) o = register_all ts (register_target t o)

module _ {C P M V F Event : Type 0} ⦃fl : Float F⦄ where
  pub process_target-register_target :
      (env : Env C P M F Event) (new : WatchTarget) (o : Observer C P M V F) (b : BlockRef C)
      (t : WatchTarget) (sent : List M)
      → process_target env (register_target new o) b t sent ≡ process_target env o b t sent
  unfolding process_target prove_target register_target
  process_target-register_target env new o b t sent = refl

  process_targets-register_target :
      (env : Env C P M F Event) (new : WatchTarget) (o : Observer C P M V F) (b : BlockRef C)
      (ts : List WatchTarget) (sent : List M)
      → process_targets env (register_target new o) b ts sent ≡ process_targets env o b ts sent
  unfolding process_targets
  process_targets-register_target env new o b [] sent = refl
  process_targets-register_target env new o b (t ∷ ts) sent =
      let one = process_target-register_target env new o b t sent in
      elim (Result-cases (process_target env o b t sent).0) [
        | inr (e, failed) ↦
            process_targets-cons_err env (register_target new o) b t ts sent
              (ap (λ r. r.0) one ∙ failed)
            ∙ ap (λ r. (err e, r.1)) one
            ∙ sym (process_targets-cons_err env o b t ts sent failed)
        | inl (u, went) ↦
            process_targets-cons_ok env (register_target new o) b t ts sent
              (ap (λ r. r.0) one ∙ went)
            ∙ ap (λ r. process_targets env (register_target new o) b ts r.1) one
            ∙ process_targets-register_target env new o b ts (process_target env o b t sent).1
            ∙ sym (process_targets-cons_ok env o b t ts sent went)
      ]

  process_targets-register_all :
      (env : Env C P M F Event) (later : List WatchTarget) (o : Observer C P M V F) (b : BlockRef C)
      (ts : List WatchTarget) (sent : List M)
      → process_targets env (register_all later o) b ts sent ≡ process_targets env o b ts sent
  process_targets-register_all env [] o b ts sent = refl
  process_targets-register_all env (new ∷ later) o b ts sent =
      process_targets-register_all env later (register_target new o) b ts sent
      ∙ process_targets-register_target env new o b ts sent

  -- The worker after a notification with this result.
  abbrev pub settled :
      Observer C P M V F
      → List (Received C P M F Event)
      → Result (Fault (ProtocolError C)) (Unit {0}) × List M
      → Worker C P M V F Event
  settled o stream r = record {
    observer = o;
    progress = after_result r.0;
    stream = stream;
    sent = r.1;
  }

  -- The worker when it is done with what it is at, if its observer is left alone from now on.
  abbrev pub finish :
      Progress C P M F Event
      → Observer C P M V F
      → List (Received C P M F Event)
      → List M
      → Worker C P M V F Event
  finish idle o stream sent = record { observer = o; progress = idle; stream = stream; sent = sent }
  finish gone o stream sent = record { observer = o; progress = gone; stream = stream; sent = sent }
  finish (started env n) o stream sent =
      settled o stream (handle_finality_notification env o n sent)
  finish (cleared env b) o stream sent =
      settled o stream (process_targets env o b o.watch_targets sent)
  finish (looping env b ts) o stream sent = settled o stream (process_targets env o b ts sent)

  abbrev pub finished : Worker C P M V F Event → Worker C P M V F Event
  finished w = finish w.progress w.observer w.stream w.sent

  pub finish-looping :
      (env : Env C P M F Event) (b : BlockRef C) (ts : List WatchTarget)
      (stream : List (Received C P M F Event)) (sent : List M) (later : List WatchTarget)
      (o : Observer C P M V F)
      → finish (looping env b ts) (register_all later o) stream sent
        ≡ settled (register_all later o) stream (process_targets env o b ts sent)
  finish-looping env b ts stream sent later o =
      ap (settled (register_all later o) stream)
        (process_targets-register_all env later o b ts sent)

  after_await-register_all :
      (env : Env C P M F Event) (n : FinalityNotification) (later : List WatchTarget)
      (o : Observer C P M V F)
      → after_await (register_all later o) env n ≡ after_await o env n
  unfolding register_target
  after_await-register_all env n [] o = refl
  after_await-register_all env n (t ∷ later) o =
      after_await-register_all env n later (register_target t o)

  finish-after_await :
      (env : Env C P M F Event) (n : FinalityNotification) (o : Observer C P M V F)
      (stream : List (Received C P M F Event)) (sent : List M)
      → finish (after_await o env n) o stream sent ≡ finish (started env n) o stream sent
  unfolding handle_finality_notification
  finish-after_await env n o stream sent = elim (Result-cases (notified_block env.frost n)) [
    | inr (e, bad) ↦ rw (bad, after_await, handle_finality_notification)
    | inl (b, noted) ↦ elim (Result-cases (is_final env.frost o.finality.config env.moments b)) [
      | inr (e, failed) ↦
          rw (noted, failed, after_await, handle_finality_notification, handle_block)
      | inl (true, said) ↦ rw (noted, said, after_await, handle_finality_notification, handle_block)
      | inl (false, said) ↦
          rw (noted, said, after_await, handle_finality_notification, handle_block)
    ]
  ]

  pub finish-started :
      (env : Env C P M F Event) (n : FinalityNotification) (later : List WatchTarget)
      (o : Observer C P M V F) (stream : List (Received C P M F Event)) (sent : List M)
      → finish (after_await o env n) (register_all later o) stream sent
        ≡ finish (started env n) (register_all later o) stream sent
  finish-started env n later o stream sent =
      ap (λ p. finish p (register_all later o) stream sent)
        (sym (after_await-register_all env n later o))
      ∙ finish-after_await env n (register_all later o) stream sent

  pub finish-none_left :
      (env : Env C P M F Event) (b : BlockRef C) (o : Observer C P M V F)
      (stream : List (Received C P M F Event)) (sent : List M)
      → finish (looping env b []) o stream sent ≡ finish idle o stream sent
  unfolding process_targets
  finish-none_left env b o stream sent = refl

  -- One target, whose run ends the loop or leaves the targets behind it.
  pub serve_target-ok :
      (env : Env C P M F Event) (b : BlockRef C) (t : WatchTarget) (ts : List WatchTarget)
      (now : Observer C P M V F) (stream : List (Received C P M F Event)) (before : List M)
      {u : Unit {0}}
      → (process_target env now b t before).0 ≡ ok u
      → (later : List WatchTarget)
      → finish
          (looping env b ts)
          (register_all later now)
          stream
          (process_target env now b t before).1
        ≡ finish (looping env b (t ∷ ts)) (register_all later now) stream before
  serve_target-ok env b t ts now stream before went later =
      finish-looping env b ts stream (process_target env now b t before).1 later now
      ∙ ap (settled (register_all later now) stream)
          (sym (process_targets-cons_ok env now b t ts before went))
      ∙ sym (finish-looping env b (t ∷ ts) stream before later now)

  pub serve_target-err :
      (env : Env C P M F Event) (b : BlockRef C) (t : WatchTarget) (ts : List WatchTarget)
      (now : Observer C P M V F) (stream : List (Received C P M F Event)) (before : List M)
      {e : Fault (ProtocolError C)}
      → (process_target env now b t before).0 ≡ err e
      → (later : List WatchTarget)
      → settled (register_all later now) stream (err e, (process_target env now b t before).1)
        ≡ finish (looping env b (t ∷ ts)) (register_all later now) stream before
  serve_target-err env b t ts now stream before failed later =
      ap (settled (register_all later now) stream)
        (sym (process_targets-cons_err env now b t ts before failed))
      ∙ sym (finish-looping env b (t ∷ ts) stream before later now)

  abbrev pub register_in : List WatchTarget → Worker C P M V F Event → Worker C P M V F Event
  register_in new w = record w { observer = register_all new w.observer }

  pub run_wholes-registers :
      (new : List WatchTarget) (wholes : List Turn) (w : Worker C P M V F Event)
      → run_wholes (map registers new ++ wholes) w ≡ run_wholes wholes (register_in new w)
  unfolding run_wholes
  run_wholes-registers [] wholes w = refl
  run_wholes-registers (t ∷ new) wholes w =
      run_wholes-registers new wholes (record w { observer = register_target t w.observer })

pub registered_in-registers :
    (new : List WatchTarget) (wholes : List Turn)
    → registered_in (map registers new ++ wholes) ≡ new ++ registered_in wholes
registered_in-registers [] wholes = refl
registered_in-registers (t ∷ new) wholes = ap (◌∷◌ t) (registered_in-registers new wholes)
