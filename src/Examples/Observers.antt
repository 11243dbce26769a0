-- ===== src/Examples/Observers.antt =====
-- An observer with one target, a block with one event, and a worker.
use frost_substrate.Prelude.{
  ◌^◌, error, ℕ, ◌≡◌, ◌↔◌, refl, true, some, none, List, [], ◌∷◌, Bytes, ok, err,
}
use frost_substrate.Examples.World.{
  Voters, frost, states, states-IsStates, grandpa, chain_at, snapshot, client, two_voters,
  block_ref, config_asking, block_hash,
}
use frost_substrate.External.Float.{Millionths, millionths_float}
use frost_substrate.External.State.{ProofData}
use frost_substrate.Finality.Build.{substrate}
use frost_substrate.Finality.Predicate.Soundness.{moments}
use frost_substrate.Observer.{
  message_routing_failed, protocol_error, WatchTarget, MessageRouter, Observer,
}
use frost_substrate.Observer.Matching.{generic_event_match}
use frost_substrate.Observer.Notify.{
  Env, FinalityNotification, process_targets, handle_finality_notification,
}
use frost_substrate.Observer.Windows.{Matches, IsSearchable, generic_event_match_iff}
use frost_substrate.Observer.Delivered.{Delivered, process_targets_iff, merkle_observer_silent}
use frost_substrate.Observer.Failed.{Stops, process_targets_failed_iff}
use frost_substrate.Observer.Provenance.{IsAnswered}
use frost_substrate.Proof.{Surroundings}
use frost_substrate.Proof.Merkle.{merkle_type, merkle_generator}

-- Events are their bytes.
abbrev pub event : Bytes
event = 1 ∷ 2 ∷ 3 ∷ 4 ∷ []

abbrev pub encode : Bytes → Bytes
encode e = e

abbrev pub target : WatchTarget
target = record {
  module_name = 1 ∷ 2 ∷ [];
  function_name = 3 ∷ [];
  message_hash = none;
  target_chain = 5 ∷ [];
}

pub target-IsSearchable : IsSearchable target
target-IsSearchable = record {
  module_named = λ e. cc;
  function_named = λ e. cc;
  hash_filled = λ e. cc;
}

generic_event_match_iff_example :
    (generic_event_match {C = ℕ} encode event target ≡ ok true) ↔ Matches event target
generic_event_match_iff_example = generic_event_match_iff encode event target target-IsSearchable

abbrev pub env : Env ℕ ProofData Bytes Millionths Bytes
env = record {
  frost = frost;
  states = states;
  api = record { events = λ h. ok (record { event = event } ∷ []) };
  encode_event = encode;
  new_message = λ payload source. payload;
  moments = moments grandpa frost (snapshot 20 12) (snapshot 20 12) (snapshot 20 12);
  now = 1;
}

abbrev pub world : Surroundings
world = record { chain = chain_at 20 12; now = 1; later = 1; clock_end = 2 ^ 62 }

abbrev pub router : MessageRouter Bytes
router = record { route_message = λ m. ok tt }

abbrev pub observer : Observer ℕ ProofData Bytes Voters Millionths
observer = record {
  watch_targets = target ∷ [];
  proof_generator = merkle_generator states world;
  message_router = some router;
  finality = record {
    config = config_asking 2;
    verification_client = substrate client;
    voter_set = two_voters;
  };
}

-- A generator whose proofs do not rest on state data.
abbrev pub proving : Observer ℕ ProofData Bytes Voters Millionths
proving = record observer {
  proof_generator = record {
    generate_proof = λ t c. ok (record {
      proof_type = merkle_type;
      content = 8 ∷ [];
      metadata = none;
      generated_at = 0;
      expires_at = none;
      version = 1;
    });
    supported_types = [];
  };
}

process_targets_iff_example :
    (process_targets env proving block_ref (target ∷ []) [] ≡ (ok tt, (8 ∷ []) ∷ []))
    ↔ ((ms : List Bytes) × Delivered env proving block_ref (target ∷ []) ms × ((8 ∷ []) ∷ [] ≡ ms))
process_targets_iff_example =
    process_targets_iff env proving block_ref (target ∷ []) [] ((8 ∷ []) ∷ [])

abbrev pub notification : FinalityNotification
notification = record { hash = block_hash; number = 10; justification = none }

merkle_observer_silent_example : (handle_finality_notification env observer notification []).1 ≡ []
merkle_observer_silent_example =
    merkle_observer_silent env observer world states-IsStates refl notification []

-- The same observer with a router that refuses every message.
abbrev refused_one : Observer ℕ ProofData Bytes Voters Millionths
refused_one = record proving { message_router = some (record { route_message = λ m. err "no" }) }

process_targets_failed_iff_example :
    (process_targets env refused_one block_ref (target ∷ []) []
      ≡ (err (error (protocol_error message_routing_failed)), (8 ∷ []) ∷ []))
    ↔ ((new : List Bytes) × Stops env refused_one block_ref
          (target ∷ [])
          (error (protocol_error message_routing_failed))
          new
        × ((8 ∷ []) ∷ [] ≡ new))
process_targets_failed_iff_example =
    process_targets_failed_iff env refused_one block_ref (target ∷ []) [] ((8 ∷ []) ∷ [])
      (error (protocol_error message_routing_failed))

abbrev pub answered : IsAnswered {V = Voters} grandpa env
answered = record {
  at_hash = snapshot 20 12;
  at_confidence = snapshot 20 12;
  at_rules = snapshot 20 12;
  answers = refl;
}
