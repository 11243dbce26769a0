-- ===== src/Observer/Turns.antt =====
-- src/observer/mod.rs: the worker and `register_watch_target` side by side. The observer behind its `Arc`
-- is registered at while a notification is handled: `handle_finality_notification` awaits `is_final`, then
-- clones the targets under the lock, and then awaits for each of them.
use frost_substrate.Prelude.{true, false, List, [], ◌∷◌, Result, ok, err, Fault, error, panic}
use frost_substrate.External.Float.{Float}
use frost_substrate.External.Frost.{BlockRef}
use frost_substrate.Finality.Predicate.{is_final}
use frost_substrate.Observer.{
  ProtocolError, Fault, error, Result, WatchTarget, Observer, register_target,
}
use frost_substrate.Observer.Notify.{
  FinalityNotification, Env, notified_block, process_target, handle_finality_notification,
}

-- A notification with what it is handled in.
abbrev pub Received : (C P M F Event : Type 0) → Type 0
Received C P M F Event = Env C P M F Event × FinalityNotification

-- Where the worker stands, with what it holds there. A panic unwinds through the loop over the stream:
-- `if let Err(e)` catches errors only, and the worker is gone.
pub data Progress (C P M F Event : Type 0) : Type 0 where
  idle : Progress C P M F Event
  started : Env C P M F Event → FinalityNotification → Progress C P M F Event
  cleared : Env C P M F Event → BlockRef C → Progress C P M F Event
  looping : Env C P M F Event → BlockRef C → (cloned : List WatchTarget) → Progress C P M F Event
  gone : Progress C P M F Event

pub record Worker (C P M V F Event : Type 0) : Type 0 where
  pub observer : Observer C P M V F
  pub progress : Progress C P M F Event
  pub stream : List (Received C P M F Event)
  pub sent : List M

pub data Turn : Type 0 where
  handles : Turn
  registers : WatchTarget → Turn

module _ {C P M V F Event : Type 0} ⦃fl : Float F⦄ where
  -- The hash and the number are converted, and `is_final` is awaited.
  abbrev pub after_await :
      Observer C P M V F → Env C P M F Event → FinalityNotification → Progress C P M F Event
  after_await o env n = elim (notified_block env.frost n) [
    | err e ↦ idle
    | ok b ↦ elim (is_final env.frost o.finality.config env.moments b) [
      | err e ↦ idle
      | ok false ↦ idle
      | ok true ↦ cleared env b
    ]
  ]

  -- What the worker does up to its next await: it takes a notification from the stream; it asks whether
  -- the block is final; it clones the targets; it serves one of them. An error is logged.
  unfoldable pub handle_turn : Worker C P M V F Event → Worker C P M V F Event
  handle_turn w = elim w.progress [
    | idle ↦ elim w.stream [
      | [] ↦ w
      | received ∷ rest ↦ record w { progress = started received.0 received.1; stream = rest }
    ]
    | started env n ↦ record w { progress = after_await w.observer env n }
    | cleared env b ↦ record w { progress = looping env b w.observer.watch_targets }
    | looping env b [] ↦ record w { progress = idle }
    | looping env b (t ∷ ts) ↦
        let (r, sent) = process_target env w.observer b t w.sent in
        elim r [
          | err panic ↦ record w { progress = gone; sent = sent }
          | err (error e) ↦ record w { progress = idle; sent = sent }
          | ok u ↦ record w { progress = looping env b ts; sent = sent }
        ]
    | gone ↦ w
  ]

  unfoldable pub take_turn : Turn → Worker C P M V F Event → Worker C P M V F Event
  unfolding handle_turn
  take_turn handles w = handle_turn w
  take_turn (registers t) w = record w { observer = register_target t w.observer }

  unfoldable pub take_turns : List Turn → Worker C P M V F Event → Worker C P M V F Event
  unfolding take_turn
  take_turns [] w = w
  take_turns (turn ∷ rest) w = take_turns rest (take_turn turn w)

-- The targets that are registered in the turns.
abbrev pub registered_in : List Turn → List WatchTarget
registered_in [] = []
registered_in (handles ∷ rest) = registered_in rest
registered_in (registers t ∷ rest) = t ∷ registered_in rest

-- What becomes of a worker that has handled a notification with this result.
abbrev pub after_result :
    {C P M F Event : Type 0} → Result (Fault (ProtocolError C)) (Unit {0}) → Progress C P M F Event
after_result (ok u) = idle
after_result (err (error e)) = idle
after_result (err panic) = gone

-- The same in whole pieces: a notification is handled from beginning to end in one of them.
module _ {C P M V F Event : Type 0} ⦃fl : Float F⦄ where
  unfoldable pub handle_whole : Worker C P M V F Event → Worker C P M V F Event
  handle_whole w = elim w.progress [
    | idle ↦ elim w.stream [
      | [] ↦ w
      | (env, n) ∷ rest ↦
          let (r, sent) = handle_finality_notification env w.observer n w.sent in
          record w { progress = after_result r; stream = rest; sent = sent }
    ]
    | _ ↦ w
  ]

  unfoldable pub run_wholes : List Turn → Worker C P M V F Event → Worker C P M V F Event
  unfolding handle_whole
  run_wholes [] w = w
  run_wholes (handles ∷ rest) w = run_wholes rest (handle_whole w)
  run_wholes (registers t ∷ rest) w =
      run_wholes rest (record w { observer = register_target t w.observer })
