-- ===== src/Observer/Ending.antt =====
-- A worker that is left alone does what `run_with_finality_stream` does.
use frost_substrate.Prelude.{
  ℕ, zero, suc, ◌+◌, ◌*◌, ◌≤◌, ◌≡◌, refl, ap, ◌∙◌, inl, inr, List, [], ◌∷◌, error, panic, length,
  replicate, arith, Result-cases,
}
use frost_substrate.External.Float.{Float}
use frost_substrate.Observer.{Observer}
use frost_substrate.Observer.Fair.{handled_in, IsDone, take_turns_fair}
use frost_substrate.Observer.Notify.{handle_finality_notification}
use frost_substrate.Observer.Turns.{
  Received, Progress, idle, gone, Worker, Turn, handles, registers, after_result, handle_whole,
  take_turns, registered_in, run_wholes,
}
use frost_substrate.Observer.Worker.{run_with_finality_stream}

registered_in-replicate : (n : ℕ) → registered_in (replicate n handles) ≡ []
registered_in-replicate zero = refl
registered_in-replicate (suc n) = registered_in-replicate n

handled_in-replicate : (n : ℕ) → handled_in (replicate n handles) ≡ n
handled_in-replicate zero = refl
handled_in-replicate (suc n) = ap suc (handled_in-replicate n)

module _ {C P M V F Event : Type 0} ⦃fl : Float F⦄ (o : Observer C P M V F) where
  abbrev at :
      Progress C P M F Event → List (Received C P M F Event) → List M → Worker C P M V F Event
  at p stream sent = record { observer = o; progress = p; stream = stream; sent = sent }

  -- A worker that is gone does nothing more.
  run_wholes-gone :
      (wholes : List Turn) (stream : List (Received C P M F Event)) (sent : List M)
      → registered_in wholes ≡ []
      → run_wholes wholes (at gone stream sent) ≡ at gone stream sent
  unfolding run_wholes handle_whole
  run_wholes-gone [] stream sent alone = refl
  run_wholes-gone (registers t ∷ wholes) stream sent alone = absurd (cc alone)
  run_wholes-gone (handles ∷ wholes) stream sent alone = run_wholes-gone wholes stream sent alone

  run_wholes-run_with_finality_stream :
      (wholes : List Turn) (stream : List (Received C P M F Event)) (sent : List M)
      → registered_in wholes ≡ []
      → IsDone
          (run_wholes wholes (at idle stream sent)).progress
          (run_wholes wholes (at idle stream sent)).stream
      → let r = run_with_finality_stream (record { observer = o }) stream sent in
        ((run_wholes wholes (at idle stream sent)).progress ≡ after_result r.0)
        × ((run_wholes wholes (at idle stream sent)).sent ≡ r.1)
  unfolding run_wholes handle_whole run_with_finality_stream
  run_wholes-run_with_finality_stream [] [] sent alone done = (refl, refl)
  run_wholes-run_with_finality_stream [] (x ∷ rest) sent alone (inl (rests, empty)) =
      absurd (cc empty)
  run_wholes-run_with_finality_stream [] (x ∷ rest) sent alone (inr died) = absurd (cc died)
  run_wholes-run_with_finality_stream (registers t ∷ wholes) stream sent alone done =
      absurd (cc alone)
  run_wholes-run_with_finality_stream (handles ∷ wholes) [] sent alone done =
      run_wholes-run_with_finality_stream wholes [] sent alone done
  run_wholes-run_with_finality_stream (handles ∷ wholes) (x ∷ rest) sent alone done =
      let next = (handle_finality_notification x.0 o x.1 sent).1 in
      elim (Result-cases (handle_finality_notification x.0 o x.1 sent).0) [
        | inl (u, went) ↦
            rw (went, run_wholes, handle_whole, run_with_finality_stream)
              (run_wholes-run_with_finality_stream wholes rest next alone
                (rw (went, run_wholes, handle_whole) at done))
        | inr (error e, failed) ↦
            rw (failed, run_wholes, handle_whole, run_with_finality_stream)
              (run_wholes-run_with_finality_stream wholes rest next alone
                (rw (failed, run_wholes, handle_whole) at done))
        | inr (panic, failed) ↦
            let stays = run_wholes-gone wholes rest next alone in
            rw (failed, run_wholes, handle_whole, run_with_finality_stream)
              (ap (λ w. w.progress) stays, ap (λ w. w.sent) stays)
      ]

  -- The worker step by step does what `run_with_finality_stream` does: left alone, after at least four
  -- turns for each notification of its stream and one more for each of them and each target, it has
  -- handed over the same messages, and it is gone if that run panics, and idle if not.
  pub take_turns-run_with_finality_stream :
      (n : ℕ) (stream : List (Received C P M F Event)) (before : List M)
      → length stream * (length o.watch_targets + 4) ≤ n
      → let r = run_with_finality_stream (record { observer = o }) stream before in
        ((take_turns (replicate n handles) (at idle stream before)).progress ≡ after_result r.0)
        × ((take_turns (replicate n handles) (at idle stream before)).sent ≡ r.1)
  take_turns-run_with_finality_stream n stream before enough =
      let none_registered = registered_in-replicate n in
      let count = ap length none_registered in
      let same : length o.watch_targets + length (registered_in (replicate n handles)) + 4
          ≡ length o.watch_targets + 4 =
        omega (arith, count) in
      let all = handled_in-replicate n in
      let (done, (wholes, same_targets, same_end)) =
        take_turns_fair (replicate n handles) stream o before (rw (same, all) enough) in
      rw same_end (
        run_wholes-run_with_finality_stream wholes stream before (same_targets ∙ none_registered)
          (rw same_end at done))
