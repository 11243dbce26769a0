-- ===== src/Examples/Registries.antt =====
-- Runtimes in one process.
use frost_substrate.Prelude.{ℕ, ◌≡◌, refl, false, none, List, [], ◌∷◌, ok, err, panic}
use frost_substrate.Examples.Pallets.{runtime}
use frost_substrate.Examples.World.{Voters, grandpa-IsVoterSets}
use frost_substrate.External.Float.{Millionths, millionths_float}
use frost_substrate.External.State.{ProofData}
use frost_substrate.Pallet.Registry.{Carriers, RuntimeOf, Registry, observer_at, ensure_observer_in}
use frost_substrate.Pallet.Registry.Isolation.{run_calls_in, run_calls_in_spoilt}

abbrev types : ℕ → Carriers
types id = record {
  chain_ids = ℕ;
  proofs = ProofData;
  messages = List ℕ;
  voters = Voters;
  floats = Millionths;
  float = millionths_float;
}

-- The voter sets refuse the empty list, as documented.
abbrev refusing : (id : ℕ) → RuntimeOf types id
refusing id = runtime

abbrev empty_registry : Registry types
empty_registry = record { poisoned = false; observers = λ id. none }

run_calls_in_spoilt_example :
    let (answer, r') = ensure_observer_in types refusing 3 empty_registry in
    (answer ≡ err panic)
    × (observer_at types 2 r' ≡ observer_at types 2 empty_registry)
    × (ensure_observer_in types refusing 2 (run_calls_in types refusing (4 ∷ 2 ∷ []) r')
        ≡ (ok none, run_calls_in types refusing (4 ∷ 2 ∷ []) r'))
run_calls_in_spoilt_example =
    run_calls_in_spoilt types refusing 3 2 (4 ∷ 2 ∷ []) empty_registry grandpa-IsVoterSets refl refl
