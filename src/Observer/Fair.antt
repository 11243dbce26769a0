-- ===== src/Observer/Fair.antt =====
-- How many turns the worker needs, whatever is registered between them.
use frost_substrate.Prelude.{
  ◌⊎◌, error, panic, ℕ, suc, ◌+◌, ◌-◌, ◌*◌, ◌≤◌, ◌≡◌, refl, sym, ap, ◌∙◌, inl, inr, true, false,
  List, [], ◌∷◌, length, length-append, arith, Result-cases,
}
use native.Mathlib.Nat.{le_refl}
use frost_substrate.External.Float.{Float}
use frost_substrate.Finality.Predicate.{is_final}
use frost_substrate.Observer.{Observer, register_target}
use frost_substrate.Observer.Atomic.{take_turns_atomic}
use frost_substrate.Observer.Notify.{Env, FinalityNotification, notified_block, process_target}
use frost_substrate.Observer.Turns.{
  Received, Progress, idle, started, cleared, looping, gone, Worker, Turn, handles, registers,
  after_await, handle_turn, take_turn, take_turns, registered_in, run_wholes,
}
use frost_substrate.Observer.Undisturbed.{finish, finished}

-- The turns that are the worker's own.
abbrev pub handled_in : List Turn → ℕ
handled_in [] = 0
handled_in (handles ∷ rest) = suc (handled_in rest)
handled_in (registers t ∷ rest) = handled_in rest

module _ {C P M F Event : Type 0} where
  -- The turns that are left of what the worker is at, if it never has more than so many targets.
  abbrev left_of : ℕ → Progress C P M F Event → ℕ
  left_of most idle = 0
  left_of most gone = 0
  left_of most (started env n) = most + 3
  left_of most (cleared env b) = most + 2
  left_of most (looping env b ts) = length ts + 1

  -- With what is left of the stream, unless the worker is gone.
  abbrev pub left : ℕ → Progress C P M F Event → List (Received C P M F Event) → ℕ
  left most gone stream = 0
  left most idle stream = length stream * (most + 4)
  left most (started env n) stream = left_of most (started env n) + length stream * (most + 4)
  left most (cleared env b) stream = left_of most (cleared env b) + length stream * (most + 4)
  left most (looping env b ts) stream = left_of most (looping env b ts) + length stream * (most + 4)

  -- The worker is at its end: it has emptied its stream, or a panic has ended it.
  abbrev pub IsDone : Progress C P M F Event → List (Received C P M F Event) → Type 0
  IsDone p stream = ((p ≡ idle) × (stream ≡ [])) ⊎ (p ≡ gone)

  nothing_left :
      (most : ℕ) (p : Progress C P M F Event) (stream : List (Received C P M F Event))
      → left most p stream ≤ 0
      → IsDone p stream
  nothing_left most gone stream none_left = inr refl
  nothing_left most idle [] none_left = inl (refl, refl)
  nothing_left most idle (x ∷ rest) none_left = absurd (omega arith)
  nothing_left most (started env n) stream none_left = absurd (omega arith)
  nothing_left most (cleared env b) stream none_left = absurd (omega arith)
  nothing_left most (looping env b ts) stream none_left = absurd (omega arith)

  left-le :
      (most : ℕ) (p : Progress C P M F Event) (stream : List (Received C P M F Event))
      → left most p stream ≤ left_of most p + length stream * (most + 4)
  left-le most gone stream = omega arith
  left-le most idle stream = omega arith
  left-le most (started env n) stream = omega arith
  left-le most (cleared env b) stream = omega arith
  left-le most (looping env b ts) stream = omega arith

module _ {C P M V F Event : Type 0} ⦃fl : Float F⦄ where
  after_await-left :
      (most : ℕ) (o : Observer C P M V F) (env : Env C P M F Event) (n : FinalityNotification)
      → left_of most (after_await o env n) ≤ most + 2
  after_await-left most o env n = elim (Result-cases (notified_block env.frost n)) [
    | inr (e, bad) ↦ rw (bad, after_await) (omega arith)
    | inl (b, noted) ↦ elim (Result-cases (is_final env.frost o.finality.config env.moments b)) [
      | inr (e, failed) ↦ rw (noted, failed, after_await) (omega arith)
      | inl (true, said) ↦ rw (noted, said, after_await) (omega arith)
      | inl (false, said) ↦ rw (noted, said, after_await) (omega arith)
    ]
  ]

  -- A turn of the worker keeps its observer, and brings it nearer to the end if there is something to do.
  record Nearer (most : ℕ) (now : Observer C P M V F) (p : Progress C P M F Event)
      (stream : List (Received C P M F Event)) (w' : Worker C P M V F Event) : Type 0 where
    pub progress : Progress C P M F Event
    pub rest : List (Received C P M F Event)
    pub sent : List M
    pub after : w' ≡ record { observer = now; progress = progress; stream = rest; sent = sent }
    pub nearer : left most progress rest ≤ left most p stream - 1

  handle_turn-Nearer :
      (most : ℕ) (p : Progress C P M F Event) (stream : List (Received C P M F Event))
      (now : Observer C P M V F) (before : List M)
      → length now.watch_targets ≤ most
      → Nearer most now p stream
          (handle_turn (record { observer = now; progress = p; stream = stream; sent = before }))
  unfolding handle_turn
  handle_turn-Nearer most idle [] now before few = record {
    progress = idle;
    rest = [];
    sent = before;
    after = refl;
    nearer = omega arith;
  }
  handle_turn-Nearer most idle (x ∷ rest) now before few = record {
    progress = started x.0 x.1;
    rest = rest;
    sent = before;
    after = refl;
    nearer = omega arith;
  }
  handle_turn-Nearer most (started env n) stream now before few =
      let soon = after_await-left most now env n in
      let least = left-le most (after_await now env n) stream in
      record {
        progress = after_await now env n;
        rest = stream;
        sent = before;
        after = refl;
        nearer = omega arith;
      }
  handle_turn-Nearer most gone stream now before few = record {
    progress = gone;
    rest = stream;
    sent = before;
    after = refl;
    nearer = omega arith;
  }
  handle_turn-Nearer most (cleared env b) stream now before few = record {
    progress = looping env b now.watch_targets;
    rest = stream;
    sent = before;
    after = refl;
    nearer = omega arith;
  }
  handle_turn-Nearer most (looping env b []) stream now before few = record {
    progress = idle;
    rest = stream;
    sent = before;
    after = refl;
    nearer = omega arith;
  }
  handle_turn-Nearer most (looping env b (t ∷ ts)) stream now before few =
      let next = (process_target env now b t before).1 in
      elim (Result-cases (process_target env now b t before).0) [
        | inr (error x, failed) ↦ record {
          progress = idle;
          rest = stream;
          sent = next;
          after = rw (failed, handle_turn);
          nearer = omega arith;
        }
        | inr (panic, failed) ↦ record {
          progress = gone;
          rest = stream;
          sent = next;
          after = rw (failed, handle_turn);
          nearer = omega arith;
        }
        | inl (u, went) ↦ record {
          progress = looping env b ts;
          rest = stream;
          sent = next;
          after = rw (went, handle_turn);
          nearer = omega arith;
        }
      ]

  take_turns-IsDone :
      (most : ℕ) (turns : List Turn) (p : Progress C P M F Event)
      (stream : List (Received C P M F Event)) (now : Observer C P M V F) (before : List M)
      → length now.watch_targets + length (registered_in turns) ≤ most
      → left most p stream ≤ handled_in turns
      → let w =
          take_turns turns
            (record { observer = now; progress = p; stream = stream; sent = before }) in
        IsDone w.progress w.stream
  unfolding take_turns take_turn register_target
  take_turns-IsDone most [] p stream now before few enough = nothing_left most p stream enough
  take_turns-IsDone most (registers t ∷ turns) p stream now before few enough =
      let longer = length-append now.watch_targets (t ∷ []) in
      take_turns-IsDone most turns p stream (register_target t now) before (omega arith) enough
  take_turns-IsDone most (handles ∷ turns) p stream now before few enough =
      let n = handle_turn-Nearer most p stream now before (omega arith) in
      let nearer = n.nearer in
      let done = take_turns-IsDone most turns n.progress n.rest now n.sent few (omega arith) in
      rw (sym n.after) at done

  -- What is done is not to be finished.
  pub finished-IsDone : (w : Worker C P M V F Event) → IsDone w.progress w.stream → finished w ≡ w
  finished-IsDone w (inl (rests, empty)) =
      ap (λ p. finish p w.observer w.stream w.sent) rests
      ∙ ap (λ p. record w { progress = p }) (sym rests)
  finished-IsDone w (inr died) =
      ap (λ p. finish p w.observer w.stream w.sent) died
      ∙ ap (λ p. record w { progress = p }) (sym died)

  -- The worker comes to an end, whatever is registered meanwhile: if an idle worker gets at least four turns
  -- for each notification of its stream, and one more for each of them and each target, those included
  -- that are registered in the turns, then it ends idle with an empty stream, or a panic has ended it. It
  -- is then as after some order of whole pieces, in which each notification is handled from beginning to
  -- end and the targets are registered in the order in which they were.
  pub take_turns_fair :
      (turns : List Turn) (stream : List (Received C P M F Event)) (now : Observer C P M V F)
      (before : List M)
      → length stream * (length now.watch_targets + length (registered_in turns) + 4)
        ≤ handled_in turns
      → let w : Worker C P M V F Event = record {
        observer = now;
        progress = idle;
        stream = stream;
        sent = before;
      } in
        IsDone (take_turns turns w).progress (take_turns turns w).stream
        × ((wholes : List Turn) × (registered_in wholes ≡ registered_in turns)
            × (take_turns turns w ≡ run_wholes wholes w))
  take_turns_fair turns stream now before enough =
      let most = length now.watch_targets + length (registered_in turns) in
      let done = take_turns-IsDone most turns idle stream now before (le_refl most) enough in
      let (wholes, same_targets, same_end) = take_turns_atomic turns stream now before in
      (done, (wholes, same_targets, sym (finished-IsDone _ done) ∙ sym same_end))
