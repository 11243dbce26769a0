-- ===== src/Examples/Pallets.antt =====
-- A registration in a runtime with documented voter sets, before and after its observer panics.
use frost_substrate.Prelude.{
  ◌^◌, lookup, some, insert, ℕ, ◌≡◌, refl, true, false, none, [], ◌∷◌, Bytes,
}
use frost_substrate.Examples.World.{
  states, grandpa, grandpa-IsVoterSets, chain_at, config_asking, Voters,
}
use frost_substrate.External.Float.{Millionths, millionths_float}
use frost_substrate.External.State.{ProofData}
use frost_substrate.Observer.{new_observer}
use frost_substrate.Pallet.{
  watch_target_registered, Runtime, Pallet, ObserverSlot, signed, register_watch_target,
}
use frost_substrate.Pallet.Unobserved.{unmakeable, register_watch_target_unwatched}
use frost_substrate.Pallet.Storage.{
  IsKeyedStorage, CalledFrom-IsKeyedStorage, registers, at_genesis, by_call,
}
use frost_substrate.Examples.Observers.{target}

abbrev pub runtime : Runtime ℕ ProofData Bytes Voters Millionths
runtime = record {
  grandpa = grandpa;
  states = states;
  config = config_asking 2;
  gauge = 0;
  world = record { chain = chain_at 20 12; now = 1; later = 1; clock_end = 2 ^ 62 };
  router = none;
  hash = λ t. t.module_name;
}

abbrev empty_slot : ObserverSlot ℕ ProofData Bytes Voters Millionths
empty_slot = record { poisoned = false; entry = none }

-- A pallet whose lock is poisoned.
abbrev pallet : Pallet ℕ ProofData Bytes Voters Millionths
pallet = record { watch_targets = []; events = []; slot = record { poisoned = true; entry = none } }

abbrev registered : Pallet ℕ ProofData Bytes Voters Millionths
registered = record pallet {
  watch_targets = (1 ∷ 2 ∷ [], target) ∷ [];
  events = watch_target_registered (1 ∷ 2 ∷ []) ∷ [];
}

abbrev empty_pallet : Pallet ℕ ProofData Bytes Voters Millionths
empty_pallet = record { watch_targets = []; events = []; slot = empty_slot }

-- The second registration after an empty slot: the first one has panicked.
abbrev spoilt : Pallet ℕ ProofData Bytes Voters Millionths
spoilt = record registered { events = [] }

register_watch_target_unwatched_example :
    (spoilt.slot ≡ unmakeable runtime)
    × (registered.slot ≡ unmakeable runtime)
    × (lookup (1 ∷ 2 ∷ []) registered.watch_targets ≡ some target)
    × (registered.events ≡ watch_target_registered (1 ∷ 2 ∷ []) ∷ [])
unfolding register_watch_target insert lookup new_observer
register_watch_target_unwatched_example =
    register_watch_target_unwatched runtime grandpa-IsVoterSets empty_pallet refl {p = spoilt}
      (by_call {p = empty_pallet} (registers (signed 1) target empty_pallet) at_genesis) (signed 1)
      target registered refl

CalledFrom-IsKeyedStorage_example : IsKeyedStorage runtime registered
unfolding register_watch_target insert new_observer
CalledFrom-IsKeyedStorage_example =
    CalledFrom-IsKeyedStorage runtime empty_pallet tt {p = registered} (
      by_call (registers (signed 1) target spoilt)
        (by_call {p = empty_pallet} (registers (signed 1) target empty_pallet) at_genesis))
