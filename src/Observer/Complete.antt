-- ===== src/Observer/Complete.antt =====
-- A target that is watched is served, whatever is registered while the worker is at it.
use frost_substrate.Prelude.{
  inr, inl, Result, Fault, error, panic, ◌+◌, ◌*◌, ◌+◌, ◌*◌, ◌≤◌, length, ◌≡◌, refl, sym, ap, ◌∙◌,
  true, some, List, [], ◌∷◌, ◌++◌, append_assoc, ok,
}
use mathlib.Core.List.Memᴰ
use mathlib.Core.List.{Memᴰ}
use mathlib.Core.Path.{subst}
use frost_substrate.External.Float.{Float}
use frost_substrate.External.Frost.{BlockRef}
use frost_substrate.Finality.Predicate.{is_final}
use frost_substrate.Observer.{
  err, ProtocolError, length, WatchTarget, MessageRouter, Observer, register_target,
}
use frost_substrate.Observer.Delivery.{
  process_targets-cons_ok, process_targets-OnlyAdds, handle_finality_notification-OnlyAdds,
}
use frost_substrate.Observer.Fair.{handled_in, IsDone, take_turns_fair}
use frost_substrate.Observer.Matching.{matches_watch_target}
use frost_substrate.Observer.Notify.{
  FinalityNotification, Env, notified_block, prove_target, route, process_target, process_targets,
  handle_block, handle_finality_notification,
}
use frost_substrate.Observer.Turns.{
  Received, Progress, idle, started, cleared, looping, gone, Turn, handles, registers, after_result,
  handle_whole, take_turns, registered_in, run_wholes,
}
use frost_substrate.Observer.Calm.{IsCalmGenerator, IsCalm, handle_finality_notification-IsCalm}
use frost_substrate.Observer.Windows.{IsSearchable}
use frost_substrate.Observer.Undisturbed.{process_target-register_target}

calm_after :
    {C P M F Event : Type 0} (r : Result (Fault (ProtocolError C)) (Unit {0}))
    → IsCalm r
    → after_result {P = P} {M = M} {F = F} {Event = Event} r ≡ idle
calm_after (ok u) calm = refl
calm_after (err (error e)) calm = refl
calm_after (err panic) calm = absurd (calm refl)

-- No panic is in sight: every target that is watched or will be can be searched for, and the generator
-- does not panic.
pub record CannotPanic {C P M V F : Type 0} (o : Observer C P M V F) (turns : List Turn)
    : Type 0 where
  pub searchable :
      (u : WatchTarget) → Memᴰ u (o.watch_targets ++ registered_in turns) → IsSearchable u
  pub generates : IsCalmGenerator o.proof_generator

module _ {C P M V F Event : Type 0} ⦃fl : Float F⦄ where
  -- The loop does not end at this target.
  abbrev pub GoesThrough :
      Env C P M F Event → Observer C P M V F → BlockRef C → WatchTarget → Type 0
  GoesThrough env o b t = (sent : List M) → (process_target env o b t sent).0 ≡ ok tt

  -- This target has this message.
  abbrev Sends : Env C P M F Event → Observer C P M V F → BlockRef C → WatchTarget → M → Type 0
  Sends env o b t m = (sent : List M) → Memᴰ m (process_target env o b t sent).1

  proved-Sends :
      (env : Env C P M F Event) (o : Observer C P M V F) (b : BlockRef C) (t : WatchTarget) (m : M)
      (router : MessageRouter M)
      → o.message_router ≡ some router
      → matches_watch_target env.encode_event env.api b t ≡ ok true
      → prove_target env o b t ≡ ok m
      → Sends env o b t m
  unfolding process_target route
  proved-Sends env o b t m router routed a_match proved sent =
      rw (a_match, proved, routed, process_target, route) (Memᴰ.append_right sent (Memᴰ.head refl))

  process_targets-served :
      (env : Env C P M F Event) (o : Observer C P M V F) (b : BlockRef C) (t : WatchTarget) (m : M)
      (ts : List WatchTarget)
      → ((u : WatchTarget) → Memᴰ u ts → GoesThrough env o b u)
      → Memᴰ t ts
      → Sends env o b t m
      → (sent : List M) → Memᴰ m (process_targets env o b ts sent).1
  process_targets-served env o b t m [] through h sends sent = elim h [ ]
  process_targets-served env o b t m (u ∷ ts) through (Memᴰ.head e) sends sent =
      let next = (process_target env o b u sent).1 in
      let there : Memᴰ m next =
        subst (λ v. Memᴰ m (process_target env o b v sent).1) e (sends sent) in
      subst (λ r. Memᴰ m r.1)
        (sym (
          process_targets-cons_ok env o b u ts sent (through u (Memᴰ.head refl) sent)
          ∙ process_targets-OnlyAdds env o b ts next))
        (Memᴰ.append_left _ there)
  process_targets-served env o b t m (u ∷ ts) through (Memᴰ.tail h) sends sent =
      subst (λ r. Memᴰ m r.1)
        (sym (process_targets-cons_ok env o b u ts sent (through u (Memᴰ.head refl) sent)))
        (process_targets-served env o b t m ts (λ v i. through v (Memᴰ.tail i)) h sends
          (process_target env o b u sent).1)

  -- What is handed over stays handed over.
  run_wholes-keeps :
      (wholes : List Turn) (p : Progress C P M F Event) (stream : List (Received C P M F Event))
      (o : Observer C P M V F) (before : List M) (m : M)
      → Memᴰ m before
      → Memᴰ m
          (run_wholes wholes
            (record { observer = o; progress = p; stream = stream; sent = before })).sent
  unfolding run_wholes handle_whole
  run_wholes-keeps [] p stream o before m h = h
  run_wholes-keeps (registers t ∷ wholes) p stream o before m h =
      run_wholes-keeps wholes p stream (register_target t o) before m h
  run_wholes-keeps (handles ∷ wholes) idle [] o before m h =
      run_wholes-keeps wholes idle [] o before m h
  run_wholes-keeps (handles ∷ wholes) idle (x ∷ rest) o before m h =
      run_wholes-keeps wholes _ rest o _ m (
        subst (λ r. Memᴰ m r.1) (sym (handle_finality_notification-OnlyAdds x.0 o x.1 before))
          (Memᴰ.append_left _ h))
  run_wholes-keeps (handles ∷ wholes) gone stream o before m h =
      run_wholes-keeps wholes gone stream o before m h
  run_wholes-keeps (handles ∷ wholes) (started env n) stream o before m h =
      run_wholes-keeps wholes (started env n) stream o before m h
  run_wholes-keeps (handles ∷ wholes) (cleared env b) stream o before m h =
      run_wholes-keeps wholes (cleared env b) stream o before m h
  run_wholes-keeps (handles ∷ wholes) (looping env b ts) stream o before m h =
      run_wholes-keeps wholes (looping env b ts) stream o before m h

  -- In a notification, for a block that is final.
  handled-served :
      (env : Env C P M F Event) (n : FinalityNotification) (o : Observer C P M V F) (b : BlockRef C)
      (t : WatchTarget) (m : M)
      → notified_block env.frost n ≡ ok b
      → is_final env.frost o.finality.config env.moments b ≡ ok true
      → ((u : WatchTarget) → Memᴰ u o.watch_targets → GoesThrough env o b u)
      → Memᴰ t o.watch_targets
      → Sends env o b t m
      → (sent : List M) → Memᴰ m (handle_finality_notification env o n sent).1
  unfolding handle_finality_notification handle_block
  handled-served env n o b t m noted final through watched sends sent =
      rw (noted, final, handle_finality_notification, handle_block)
        (process_targets-served env o b t m o.watch_targets through watched sends sent)

  run_wholes-served :
      (x : Received C P M F Event) (b : BlockRef C) (t : WatchTarget) (m : M) (wholes : List Turn)
      (stream : List (Received C P M F Event)) (o : Observer C P M V F) (before : List M)
      → Memᴰ x stream
      → notified_block x.0.frost x.1 ≡ ok b
      → is_final x.0.frost o.finality.config x.0.moments b ≡ ok true
      → CannotPanic o wholes
      → ((u : WatchTarget)
          → Memᴰ u (o.watch_targets ++ registered_in wholes)
          → GoesThrough x.0 o b u)
      → Memᴰ t o.watch_targets
      → Sends x.0 o b t m
      → let w =
          run_wholes wholes
            (record { observer = o; progress = idle; stream = stream; sent = before }) in
        IsDone w.progress w.stream → Memᴰ m w.sent
  unfolding run_wholes handle_whole register_target
  run_wholes-served x b t m [] [] o before received noted final fine through watched sends done =
      elim received [ ]
  run_wholes-served x b t m [] (y ∷ rest) o before received noted final fine through watched sends
        (inl (rests, empty)) =
      absurd (cc empty)
  run_wholes-served x b t m [] (y ∷ rest) o before received noted final fine through watched sends
        (inr died) =
      absurd (cc died)
  run_wholes-served x b t m (registers u ∷ wholes) stream o before received noted final fine through
        watched sends done =
      let o' = register_target u o in
      let same = process_target-register_target x.0 u o b in
      let there = λ (v : WatchTarget) (h : Memᴰ v (o'.watch_targets ++ registered_in wholes)).
        subst (Memᴰ v) (append_assoc o.watch_targets (u ∷ []) (registered_in wholes)) h in
      run_wholes-served x b t m wholes stream o' before received noted final
        (record { searchable = λ v h. fine.searchable v (there v h); generates = fine.generates })
        (λ v h sent. ap (λ r. r.0) (same v sent) ∙ through v (there v h) sent)
        (Memᴰ.append_left _ watched)
        (λ sent. subst (λ r. Memᴰ m r.1) (sym (same t sent)) (sends sent)) done
  run_wholes-served x b t m (handles ∷ wholes) [] o before received noted final fine through watched
        sends done =
      elim received [ ]
  run_wholes-served x b t m (handles ∷ wholes) (y ∷ rest) o before (Memᴰ.tail h) noted final fine
        through watched sends done =
      let r = handle_finality_notification y.0 o y.1 before in
      let calm =
        handle_finality_notification-IsCalm y.0 o fine.generates y.1
          (λ v i. fine.searchable v (Memᴰ.append_left _ i)) before in
      let goes_on : after_result r.0 ≡ idle = calm_after r.0 calm in
      let after = λ (p : Progress C P M F Event).
        run_wholes wholes (record { observer = o; progress = p; stream = rest; sent = r.1 }) in
      subst (λ p. Memᴰ m (after p).sent) (sym goes_on)
        (run_wholes-served x b t m wholes rest o r.1 h noted final
          (record { searchable = fine.searchable; generates = fine.generates }) through watched
          sends (subst (λ p. IsDone (after p).progress (after p).stream) goes_on done))
  run_wholes-served x b t m (handles ∷ wholes) (y ∷ rest) o before (Memᴰ.head e) noted final fine
        through watched sends done =
      let at_x =
        handled-served x.0 x.1 o b t m noted final (λ v h. through v (Memᴰ.append_left _ h)) watched
          sends before in
      run_wholes-keeps wholes _ rest o _ m
        (subst (λ z. Memᴰ m (handle_finality_notification z.0 o z.1 before).1) e at_x)

  -- Every watched target is served, whatever is registered meanwhile. Let an idle worker get at least four
  -- turns for each notification of its stream, and one more for each of them and each target, those
  -- included that are registered in the turns, and let all these targets have two names that are not
  -- empty and no empty message hash, and the proof generator not panic. Let a notification of the stream be of a final block at which none
  -- of these targets fails. If an event of the block matches a target that is watched from the beginning,
  -- its proof can be made and there is a router, then its message is among those that the worker has
  -- handed over in the end.
  pub take_turns_complete :
      (turns : List Turn) (stream : List (Received C P M F Event)) (now : Observer C P M V F)
      (before : List M) (env : Env C P M F Event) (n : FinalityNotification) (b : BlockRef C)
      (t : WatchTarget) (m : M) (router : MessageRouter M)
      → length stream * (length now.watch_targets + length (registered_in turns) + 4)
        ≤ handled_in turns
      → CannotPanic now turns
      → Memᴰ (env, n) stream
      → notified_block env.frost n ≡ ok b
      → is_final env.frost now.finality.config env.moments b ≡ ok true
      → ((u : WatchTarget)
          → Memᴰ u (now.watch_targets ++ registered_in turns)
          → GoesThrough env now b u)
      → Memᴰ t now.watch_targets
      → matches_watch_target env.encode_event env.api b t ≡ ok true
      → prove_target env now b t ≡ ok m
      → now.message_router ≡ some router
      → Memᴰ m
          (take_turns turns
            (record { observer = now; progress = idle; stream = stream; sent = before })).sent
  take_turns_complete turns stream now before env n b t m router enough fine received noted final
        through watched a_match proved routed =
      let (done, (wholes, same_targets, same_end)) =
        take_turns_fair turns stream now before enough in
      let there = λ (u : WatchTarget) (h : Memᴰ u (now.watch_targets ++ registered_in wholes)).
        subst (λ l. Memᴰ u (now.watch_targets ++ l)) same_targets h in
      rw same_end (
        run_wholes-served (env, n) b t m wholes stream now before received noted final
          (record { searchable = λ u h. fine.searchable u (there u h); generates = fine.generates })
          (λ u h. through u (there u h)) watched
          (proved-Sends env now b t m router routed a_match proved) (rw same_end at done))
