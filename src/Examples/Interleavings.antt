-- ===== src/Examples/Interleavings.antt =====
-- A worker that gets a second target while it works, and one that a panic ends.
use frost_substrate.Prelude.{
  ℕ, ◌≡◌, refl, sym, some, List, [], ◌∷◌, Bytes, All, ltb_iff, leb_iff, replicate, err, panic,
}
use mathlib.Core.List.{Memᴰ}
use mathlib.Core.Path.{subst}
use frost_substrate.Examples.World.{Voters, grandpa, block_ref}
use frost_substrate.Examples.Observers.{
  target, target-IsSearchable, env, router, proving, notification, answered,
}
use frost_substrate.External.Float.{Millionths, millionths_float}
use frost_substrate.External.State.{ProofData}
use frost_substrate.Finality.Predicate.{is_final}
use frost_substrate.Finality.Client.Queries.{verify_block_hash}
use frost_substrate.Finality.Client.Confidence.{get_finality_confidence, verify_chain_rules}
use frost_substrate.Finality.Client.Status.{get_finality_status}
use frost_substrate.Observer.{WatchTarget, Observer, register_target}
use frost_substrate.Observer.Matching.{matches_watch_target, has_window, generic_event_match}
use frost_substrate.Observer.Notify.{
  prove_target, route, process_target, process_targets, handle_finality_notification,
}
use frost_substrate.Observer.Atomic.{take_turns_atomic}
use frost_substrate.Observer.Complete.{CannotPanic, GoesThrough, take_turns_complete}
use frost_substrate.Observer.Ending.{take_turns-run_with_finality_stream}
use frost_substrate.Observer.Fair.{IsDone, take_turns_fair}
use frost_substrate.Observer.Safety.{OriginIn, take_turns_sound}
use frost_substrate.Observer.Turns.{
  Received, Worker, Turn, handles, registers, idle, gone, after_result, take_turn, take_turns,
  handle_turn, registered_in, run_wholes,
}
use frost_substrate.Observer.Undisturbed.{finished}
use frost_substrate.Observer.Windows.{IsSearchable}
use frost_substrate.Observer.Worker.{run_with_finality_stream}

-- The second target is registered while the worker awaits `is_final`.
abbrev turns : List Turn
turns = handles ∷ registers target ∷ handles ∷ handles ∷ handles ∷ handles ∷ handles ∷ []

abbrev pub stream : List (Received ℕ ProofData Bytes Millionths Bytes)
stream = (env, notification) ∷ []

abbrev grown : Observer ℕ ProofData Bytes Voters Millionths
grown = record proving { watch_targets = target ∷ target ∷ [] }

abbrev both : List Bytes
both = (8 ∷ []) ∷ (8 ∷ []) ∷ []

abbrev idle_worker : Worker ℕ ProofData Bytes Voters Millionths Bytes
idle_worker = record { observer = proving; progress = idle; stream = stream; sent = [] }

turns_end :
    take_turns turns idle_worker
    ≡ record { observer = grown; progress = idle; stream = []; sent = both }
unfolding take_turns take_turn handle_turn run_with_finality_stream handle_finality_notification
    is_final verify_block_hash get_finality_confidence get_finality_status verify_chain_rules
    process_targets matches_watch_target generic_event_match has_window prove_target route
    register_target
turns_end = refl

-- An observer with a target of an empty message hash, and a stream of two notifications.
abbrev panicking : Observer ℕ ProofData Bytes Voters Millionths
panicking = record proving { watch_targets = record target { message_hash = some [] } ∷ [] }

abbrev two : List (Received ℕ ProofData Bytes Millionths Bytes)
two = (env, notification) ∷ (env, notification) ∷ []

-- The worker is gone with the first one, and the second one is not handled.
panic_ends :
    take_turns
      (replicate 12 handles)
      (record { observer = panicking; progress = idle; stream = two; sent = [] })
    ≡ record { observer = panicking; progress = gone; stream = stream; sent = [] }
unfolding take_turns take_turn handle_turn handle_finality_notification is_final verify_block_hash
    get_finality_confidence get_finality_status verify_chain_rules process_targets
    matches_watch_target generic_event_match has_window prove_target route register_target
panic_ends = refl

panic_ends_stream :
    run_with_finality_stream (record { observer = panicking }) two [] ≡ (err panic, [])
unfolding run_with_finality_stream handle_finality_notification is_final verify_block_hash
    get_finality_confidence get_finality_status verify_chain_rules process_targets
    matches_watch_target generic_event_match has_window prove_target route
panic_ends_stream = refl

take_turns_atomic_example :
    (wholes : List Turn) × (registered_in wholes ≡ registered_in turns)
    × (run_wholes wholes idle_worker ≡ finished (take_turns turns idle_worker))
take_turns_atomic_example = take_turns_atomic turns stream proving []

take_turns_fair_example :
    IsDone (take_turns turns idle_worker).progress (take_turns turns idle_worker).stream
    × ((wholes : List Turn) × (registered_in wholes ≡ registered_in turns)
        × (take_turns turns idle_worker ≡ run_wholes wholes idle_worker))
take_turns_fair_example = take_turns_fair turns stream proving [] ((leb_iff 6 6).0 refl)

take_turns_sound_example :
    All
      (OriginIn grandpa stream (take_turns turns idle_worker).observer)
      (take_turns turns idle_worker).sent
take_turns_sound_example =
    take_turns_sound grandpa turns stream proving ((ltb_iff 0 2).0 refl) ((ltb_iff 0 _).0 refl)
      (answered, tt)

take_turns-run_with_finality_stream_example :
    let r = run_with_finality_stream (record { observer = panicking }) two [] in
    ((take_turns
        (replicate 12 handles)
        (record { observer = panicking; progress = idle; stream = two; sent = [] })).progress
      ≡ after_result r.0)
    × ((take_turns
          (replicate 12 handles)
          (record { observer = panicking; progress = idle; stream = two; sent = [] })).sent
        ≡ r.1)
take_turns-run_with_finality_stream_example =
    take_turns-run_with_finality_stream panicking 12 two [] ((leb_iff 10 12).0 refl)

target_through : GoesThrough env proving block_ref target
unfolding process_target matches_watch_target generic_event_match has_window prove_target route
target_through sent = refl

-- Both registrations are of the one target.
is_target : (u : WatchTarget) → Memᴰ u (target ∷ target ∷ []) → u ≡ target
is_target u (Memᴰ.head e) = e
is_target u (Memᴰ.tail (Memᴰ.head e)) = e
is_target u (Memᴰ.tail (Memᴰ.tail h)) = elim h [ ]

all_through :
    (u : WatchTarget) → Memᴰ u (target ∷ target ∷ []) → GoesThrough env proving block_ref u
all_through u h = subst (GoesThrough env proving block_ref) (sym (is_target u h)) target_through

no_panic : CannotPanic proving turns
no_panic = record {
  searchable = λ u h. subst IsSearchable (sym (is_target u h)) target-IsSearchable;
  generates = λ transition h. cc h;
}

take_turns_complete_example : Memᴰ (8 ∷ []) (take_turns turns idle_worker).sent
unfolding is_final verify_block_hash get_finality_confidence get_finality_status verify_chain_rules
    matches_watch_target generic_event_match has_window prove_target
take_turns_complete_example =
    take_turns_complete turns stream proving [] env notification block_ref target (8 ∷ []) router
      ((leb_iff 6 6).0 refl) no_panic (Memᴰ.head refl) refl refl all_through (Memᴰ.head refl) refl
      refl refl
