-- ===== src/Observer/Safety.antt =====
-- Where the messages of a worker come from whose targets grow while it works.
use frost_substrate.Prelude.{
  ◌<◌, ◌≡◌, refl, sym, ap, ◌∙◌, ◌++◌, append-nil, true, List, [], ◌∷◌, ok, All,
}
use mathlib.Core.List.Memᴰ
use mathlib.Core.Path.{subst}
use mathlib.Core.List.{Memᴰ}
use frost_substrate.External.Float.{Float}
use frost_substrate.External.Frost.{BlockRef}
use frost_substrate.External.Grandpa.{Grandpa}
use frost_substrate.Finality.Predicate.{is_final}
use frost_substrate.Finality.Predicate.Soundness.{is_final_sound}
use frost_substrate.Observer.{WatchTarget, Observer, register_target}
use frost_substrate.Observer.Atomic.{take_turns_atomic}
use frost_substrate.Observer.Notify.{Env, prove_target, handle_finality_notification}
use frost_substrate.Observer.Provenance.{
  IsProven, IsAnswered, Origin, handle_finality_notification-All,
}
use frost_substrate.Observer.Turns.{
  Received, Progress, idle, started, cleared, looping, gone, Worker, Turn, handles, registers,
  handle_whole, take_turns, registered_in, run_wholes,
}
use frost_substrate.Observer.Delivery.{
  process_targets-OnlyAdds, handle_finality_notification-OnlyAdds,
}
use frost_substrate.Observer.Undisturbed.{register_all, finish}

module _ {C P M V F Event : Type 0} ⦃fl : Float F⦄ where
  -- What is proven for a watched target stays so when the targets grow.
  IsProven-register_target :
      (env : Env C P M F Event) (b : BlockRef C) (m : M) (t : WatchTarget) (o : Observer C P M V F)
      → IsProven env o b m
      → IsProven env (register_target t o) b m
  unfolding register_target prove_target
  IsProven-register_target env b m t o i = record {
    target = i.target;
    watched = Memᴰ.append_left (t ∷ []) i.watched;
    matched = i.matched;
    proved = i.proved;
  }

  IsProven-register_all :
      (env : Env C P M F Event) (b : BlockRef C) (m : M) (ts : List WatchTarget)
      (o : Observer C P M V F)
      → IsProven env o b m
      → IsProven env (register_all ts o) b m
  IsProven-register_all env b m [] o i = i
  IsProven-register_all env b m (t ∷ ts) o i =
      IsProven-register_all env b m ts (register_target t o)
        (IsProven-register_target env b m t o i)

module _ {C P M V F : Type 0} where
  finality-register_all :
      (ts : List WatchTarget) (o : Observer C P M V F) → (register_all ts o).finality ≡ o.finality
  unfolding register_target
  finality-register_all [] o = refl
  finality-register_all (t ∷ ts) o = finality-register_all ts (register_target t o)

module _ {C P M V F Event : Type 0} ⦃fl : Float F⦄ (g : Grandpa V)
    (stream : List (Received C P M F Event)) where
  -- The origin of a message, with the targets that are watched in the end.
  abbrev pub OriginIn : Observer C P M V F → M → Type 0
  OriginIn o = Origin g (record { observer = o }) stream

  -- A notification that is handled before the last registrations.
  notification-OriginIn :
      (x : Received C P M F Event) (ts : List WatchTarget) (o : Observer C P M V F)
      → 0 < (register_all ts o).finality.config.min_confirmations
      → 0 < g.max_number
      → Memᴰ x stream
      → IsAnswered g x.0
      → (before : List M) → All (OriginIn (register_all ts o)) before
      → All (OriginIn (register_all ts o)) (handle_finality_notification x.0 o x.1 before).1
  notification-OriginIn (env, n) ts o asked room received i before all =
      let last = register_all ts o in
      handle_finality_notification-All env o (OriginIn last) n
        (λ b noted final m proven.
          let still : is_final env.frost last.finality.config env.moments b ≡ ok true =
            ap (λ f. is_final env.frost f.config env.moments b) (finality-register_all ts o)
            ∙ final in
          let (header, found, confirmed, shallow) =
            is_final_sound g env.frost last.finality.config i.at_hash i.at_confidence i.at_rules b
              asked room
              (ap (λ x. is_final env.frost last.finality.config x b) (sym i.answers) ∙ still) in
          record {
            env = env;
            notification = n;
            received = received;
            block = b;
            noted = noted;
            proven = IsProven-register_all env b m ts o proven;
            answered = i;
            header = header;
            found = found;
            confirmed = confirmed;
          })
        before all

  run_wholes-OriginIn :
      (wholes : List Turn) (p : Progress C P M F Event) (rest : List (Received C P M F Event))
      (o : Observer C P M V F)
      → 0 < (register_all (registered_in wholes) o).finality.config.min_confirmations
      → 0 < g.max_number
      → ((x : Received C P M F Event) → Memᴰ x rest → Memᴰ x stream)
      → All (λ x. IsAnswered g x.0) rest
      → (before : List M) → All (OriginIn (register_all (registered_in wholes) o)) before
      → All
          (OriginIn (register_all (registered_in wholes) o))
          (run_wholes wholes
            (record { observer = o; progress = p; stream = rest; sent = before })).sent
  unfolding run_wholes handle_whole
  run_wholes-OriginIn [] p rest o asked room received answered before all = all
  run_wholes-OriginIn (registers t ∷ wholes) p rest o asked room received answered before all =
      run_wholes-OriginIn wholes p rest (register_target t o) asked room received answered before
        all
  run_wholes-OriginIn (handles ∷ wholes) idle [] o asked room received answered before all =
      run_wholes-OriginIn wholes idle [] o asked room received answered before all
  run_wholes-OriginIn (handles ∷ wholes) idle (x ∷ rest) o asked room received answered before all =
      run_wholes-OriginIn wholes _ rest o asked room (λ y h. received y (Memᴰ.tail h)) answered.1 _
        (notification-OriginIn x (registered_in wholes) o asked room (received x (Memᴰ.head refl))
          answered.0 before all)
  run_wholes-OriginIn (handles ∷ wholes) (started env n) rest o asked room received answered before
        all =
      run_wholes-OriginIn wholes (started env n) rest o asked room received answered before all
  run_wholes-OriginIn (handles ∷ wholes) (cleared env b) rest o asked room received answered before
        all =
      run_wholes-OriginIn wholes (cleared env b) rest o asked room received answered before all
  run_wholes-OriginIn (handles ∷ wholes) (looping env b ts) rest o asked room received answered
        before all =
      run_wholes-OriginIn wholes (looping env b ts) rest o asked room received answered before all
  run_wholes-OriginIn (handles ∷ wholes) gone rest o asked room received answered before all =
      run_wholes-OriginIn wholes gone rest o asked room received answered before all

module _ {C P M V F Event : Type 0} ⦃fl : Float F⦄ where
  handle_whole-observer :
      (p : Progress C P M F Event) (o : Observer C P M V F) (stream : List (Received C P M F Event))
      (sent : List M)
      → (handle_whole
          (record { observer = o; progress = p; stream = stream; sent = sent })).observer
        ≡ o
  unfolding handle_whole
  handle_whole-observer idle o [] sent = refl
  handle_whole-observer idle o (x ∷ rest) sent = refl
  handle_whole-observer gone o stream sent = refl
  handle_whole-observer (started env n) o stream sent = refl
  handle_whole-observer (cleared env b) o stream sent = refl
  handle_whole-observer (looping env b ts) o stream sent = refl

  -- The targets are what has been registered.
  pub run_wholes-observer :
      (wholes : List Turn) (w : Worker C P M V F Event)
      → (run_wholes wholes w).observer ≡ register_all (registered_in wholes) w.observer
  unfolding run_wholes
  run_wholes-observer [] w = refl
  run_wholes-observer (registers t ∷ wholes) w = run_wholes-observer wholes _
  run_wholes-observer (handles ∷ wholes) w =
      run_wholes-observer wholes (handle_whole w)
      ∙ ap (register_all (registered_in wholes))
          (handle_whole-observer w.progress w.observer w.stream w.sent)

  finish-observer :
      (p : Progress C P M F Event) (o : Observer C P M V F) (stream : List (Received C P M F Event))
      (sent : List M)
      → (finish p o stream sent).observer ≡ o
  finish-observer idle o stream sent = refl
  finish-observer gone o stream sent = refl
  finish-observer (started env n) o stream sent = refl
  finish-observer (cleared env b) o stream sent = refl
  finish-observer (looping env b ts) o stream sent = refl

  -- What is handed over stays so.
  finish-sent :
      (p : Progress C P M F Event) (o : Observer C P M V F) (stream : List (Received C P M F Event))
      (sent : List M)
      → (more : List M) × ((finish p o stream sent).sent ≡ sent ++ more)
  finish-sent idle o stream sent = ([], sym (append-nil sent))
  finish-sent gone o stream sent = ([], sym (append-nil sent))
  finish-sent (started env n) o stream sent =
      (_, ap (λ r. r.1) (handle_finality_notification-OnlyAdds env o n sent))
  finish-sent (cleared env b) o stream sent =
      (_, ap (λ r. r.1) (process_targets-OnlyAdds env o b o.watch_targets sent))
  finish-sent (looping env b ts) o stream sent =
      (_, ap (λ r. r.1) (process_targets-OnlyAdds env o b ts sent))

All-front : {A : Type 0} (Q : A → Type 0) (xs ys : List A) → All Q (xs ++ ys) → All Q xs
All-front Q [] ys all = tt
All-front Q (x ∷ xs) ys all = (all.0, All-front Q xs ys all.1)

-- Nothing unproved and nothing unfinalized leaves the worker, whichever targets are registered while it
-- works, and also if a panic ends it. Let the client of this repository answer for each notification of
-- the stream, with at least one confirmation asked for. Then every message that the worker has handed
-- over, at any time, goes back to a notification of the stream: it is the proof for a target that the
-- observer watches by then and that an event of the notified block matches, and GRANDPA has finalized a
-- block that is the confirmations asked for above that one (as far as block numbers reach).
pub take_turns_sound :
    {C P M V F Event : Type 0} ⦃fl : Float F⦄ (g : Grandpa V) (turns : List Turn)
    (stream : List (Received C P M F Event)) (now : Observer C P M V F)
    → 0 < now.finality.config.min_confirmations
    → 0 < g.max_number
    → All (λ x. IsAnswered g x.0) stream
    → let w =
        take_turns turns (record { observer = now; progress = idle; stream = stream; sent = [] }) in
      All (OriginIn g stream w.observer) w.sent
take_turns_sound g turns stream now asked room answered =
    let first : Worker _ _ _ _ _ _ = record {
      observer = now;
      progress = idle;
      stream = stream;
      sent = [];
    } in
    let w = take_turns turns first in
    let (wholes, same_targets, same_end) = take_turns_atomic turns stream now [] in
    let last = register_all (registered_in wholes) now in
    let still : 0 < last.finality.config.min_confirmations =
      subst (λ f. 0 < f.config.min_confirmations)
        (sym (finality-register_all (registered_in wholes) now)) asked in
    let all =
      run_wholes-OriginIn g stream wholes idle stream now still room (λ x h. h) answered [] tt in
    let watched : last ≡ w.observer =
      sym (run_wholes-observer wholes first)
      ∙ ap (λ x. x.observer) same_end
      ∙ finish-observer w.progress w.observer w.stream w.sent in
    let (more, whole) = finish-sent w.progress w.observer w.stream w.sent in
    All-front (OriginIn g stream w.observer) w.sent more (
      subst (All (OriginIn g stream w.observer)) (ap (λ x. x.sent) same_end ∙ whole)
        (subst (λ o. All (OriginIn g stream o) (run_wholes wholes first).sent) watched all))
