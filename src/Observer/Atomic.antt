-- ===== src/Observer/Atomic.antt =====
-- A worker whose targets grow while it works does what a worker does that is not disturbed.
use frost_substrate.Prelude.{
  ◌≡◌, refl, sym, ap, ◌∙◌, inl, inr, List, [], ◌∷◌, ◌++◌, map, error, panic, Result-cases,
}
use frost_substrate.External.Float.{Float}
use frost_substrate.External.Frost.{BlockRef}
use frost_substrate.Observer.{WatchTarget, Observer, register_target}
use frost_substrate.Observer.Notify.{Env, process_target}
use frost_substrate.Observer.Turns.{
  Received, Progress, idle, started, cleared, looping, gone, Worker, Turn, handles, registers,
  after_await, handle_turn, handle_whole, take_turn, take_turns, registered_in, run_wholes,
}
use frost_substrate.Observer.Undisturbed.{
  register_all, finish, finished, finish-looping, finish-started, finish-none_left, serve_target-ok,
  serve_target-err, run_wholes-registers, registered_in-registers,
}

module _ {C P M V F Event : Type 0} ⦃fl : Float F⦄ where
  -- The turns do what `wholes` do in whole pieces, after the registrations `first`, which come before
  -- the worker is done with what it is at.
  record Ordered (turns : List Turn) (p : Progress C P M F Event) (now : Observer C P M V F)
      (stream : List (Received C P M F Event)) (before : List M) (end : Worker C P M V F Event)
      : Type 0 where
    pub first : List WatchTarget
    pub wholes : List Turn
    pub same_targets : registered_in turns ≡ first ++ registered_in wholes
    pub same_end :
        run_wholes wholes (finish p (register_all first now) stream before) ≡ finished end

  -- The worker takes a notification: the registrations that come before it is done with it come first.
  take_notification :
      (x : Received C P M F Event) (turns : List Turn) (rest : List (Received C P M F Event))
      (now : Observer C P M V F) (before : List M) (end : Worker C P M V F Event)
      → Ordered turns (started x.0 x.1) now rest before end
      → Ordered turns idle now (x ∷ rest) before end
  unfolding run_wholes handle_whole
  take_notification x turns rest now before end r = record {
    first = [];
    wholes = map registers r.first ++ handles ∷ r.wholes;
    same_targets = r.same_targets ∙ sym (registered_in-registers r.first (handles ∷ r.wholes));
    same_end =
        run_wholes-registers r.first (handles ∷ r.wholes) (finish idle now (x ∷ rest) before)
        ∙ r.same_end;
  }

  -- The worker clones the targets: the registrations behind that come after what it is at.
  clone_targets :
      (env : Env C P M F Event) (b : BlockRef C) (turns : List Turn)
      (stream : List (Received C P M F Event)) (now : Observer C P M V F) (before : List M)
      (end : Worker C P M V F Event)
      → Ordered turns (looping env b now.watch_targets) now stream before end
      → Ordered turns (cleared env b) now stream before end
  clone_targets env b turns stream now before end r = record {
    first = [];
    wholes = map registers r.first ++ r.wholes;
    same_targets = r.same_targets ∙ sym (registered_in-registers r.first r.wholes);
    same_end =
        run_wholes-registers r.first r.wholes (finish (cleared env b) now stream before)
        ∙ ap (run_wholes r.wholes)
            (sym (finish-looping env b now.watch_targets stream before r.first now))
        ∙ r.same_end;
  }

  -- The worker goes on with what it is at.
  go_on :
      (turns : List Turn) (p p' : Progress C P M F Event) (stream : List (Received C P M F Event))
      (now : Observer C P M V F) (before after : List M) (end : Worker C P M V F Event)
      → ((later : List WatchTarget)
          → finish p' (register_all later now) stream after
            ≡ finish p (register_all later now) stream before)
      → Ordered turns p' now stream after end
      → Ordered turns p now stream before end
  go_on turns p p' stream now before after end same r = record {
    first = r.first;
    wholes = r.wholes;
    same_targets = r.same_targets;
    same_end = ap (run_wholes r.wholes) (sym (same r.first)) ∙ r.same_end;
  }

  one_more :
      (turns : List Turn) (p : Progress C P M F Event) (stream : List (Received C P M F Event))
      (now : Observer C P M V F) (before : List M) (end : Worker C P M V F Event)
      → Ordered turns p now stream before end
      → Ordered (handles ∷ turns) p now stream before end
  one_more turns p stream now before end r = record {
    first = r.first;
    wholes = r.wholes;
    same_targets = r.same_targets;
    same_end = r.same_end;
  }

  one_registration :
      (t : WatchTarget) (turns : List Turn) (p : Progress C P M F Event)
      (stream : List (Received C P M F Event)) (now : Observer C P M V F) (before : List M)
      (end : Worker C P M V F Event)
      → Ordered turns p (register_target t now) stream before end
      → Ordered (registers t ∷ turns) p now stream before end
  one_registration t turns p stream now before end r = record {
    first = t ∷ r.first;
    wholes = r.wholes;
    same_targets = ap (◌∷◌ t) r.same_targets;
    same_end = r.same_end;
  }

  order_turns :
      (turns : List Turn) (p : Progress C P M F Event) (stream : List (Received C P M F Event))
      (now : Observer C P M V F) (before : List M)
      → Ordered turns p now stream before (
          take_turns turns
            (record { observer = now; progress = p; stream = stream; sent = before }))
  unfolding take_turns take_turn handle_turn run_wholes
  order_turns [] p stream now before = record {
    first = [];
    wholes = [];
    same_targets = refl;
    same_end = refl;
  }
  order_turns (registers t ∷ turns) p stream now before =
      one_registration t turns p stream now before _
        (order_turns turns p stream (register_target t now) before)
  order_turns (handles ∷ turns) idle [] now before =
      one_more turns idle [] now before _ (order_turns turns idle [] now before)
  order_turns (handles ∷ turns) gone stream now before =
      one_more turns gone stream now before _ (order_turns turns gone stream now before)
  order_turns (handles ∷ turns) idle (x ∷ rest) now before =
      one_more turns idle (x ∷ rest) now before _ (
        take_notification x turns rest now before _
          (order_turns turns (started x.0 x.1) rest now before))
  order_turns (handles ∷ turns) (started env n) stream now before =
      one_more turns (started env n) stream now before _ (
        go_on turns (started env n) (after_await now env n) stream now before before _
          (λ later. finish-started env n later now stream before)
          (order_turns turns (after_await now env n) stream now before))
  order_turns (handles ∷ turns) (cleared env b) stream now before =
      one_more turns (cleared env b) stream now before _ (
        clone_targets env b turns stream now before _
          (order_turns turns (looping env b now.watch_targets) stream now before))
  order_turns (handles ∷ turns) (looping env b []) stream now before =
      one_more turns (looping env b []) stream now before _ (
        go_on turns (looping env b []) idle stream now before before _
          (λ later. sym (finish-none_left env b (register_all later now) stream before))
          (order_turns turns idle stream now before))
  order_turns (handles ∷ turns) (looping env b (t ∷ ts)) stream now before =
      let here = looping env b (t ∷ ts) in
      let next = (process_target env now b t before).1 in
      elim (Result-cases (process_target env now b t before).0) [
        | inl (u, went) ↦
            rw (went, handle_turn, take_turn, take_turns)
              (one_more turns here stream now before _ (
                go_on turns here (looping env b ts) stream now before next _
                  (serve_target-ok env b t ts now stream before went)
                  (order_turns turns (looping env b ts) stream now next)))
        | inr (error e, failed) ↦
            rw (failed, handle_turn, take_turn, take_turns)
              (one_more turns here stream now before _ (
                go_on turns here idle stream now before next _
                  (serve_target-err env b t ts now stream before failed)
                  (order_turns turns idle stream now next)))
        | inr (panic, failed) ↦
            rw (failed, handle_turn, take_turn, take_turns)
              (one_more turns here stream now before _ (
                go_on turns here gone stream now before next _
                  (serve_target-err env b t ts now stream before failed)
                  (order_turns turns gone stream now next)))
      ]

  -- A worker is not disturbed by registrations, whichever of them come in between, also while it awaits
  -- or serves targets, and whether or not a panic ends it: once it is done with what it is at, it is as
  -- after some order of whole pieces, in which each notification is handled from beginning to end and
  -- the targets are registered in the order in which they were.
  pub take_turns_atomic :
      (turns : List Turn) (stream : List (Received C P M F Event)) (now : Observer C P M V F)
      (before : List M)
      → let w : Worker C P M V F Event = record {
        observer = now;
        progress = idle;
        stream = stream;
        sent = before;
      } in
        (wholes : List Turn) × (registered_in wholes ≡ registered_in turns)
        × (run_wholes wholes w ≡ finished (take_turns turns w))
  take_turns_atomic turns stream now before =
      let r = order_turns turns idle stream now before in
      (
        map registers r.first ++ r.wholes,
        registered_in-registers r.first r.wholes ∙ sym r.same_targets,
        run_wholes-registers r.first r.wholes (finish idle now stream before) ∙ r.same_end,
      )
