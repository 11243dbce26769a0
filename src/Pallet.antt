-- ===== src/Pallet.antt =====
-- src/lib.rs: the pallet. `T::FrostHash` is the list of its bytes. The process-wide registry of observers
-- is one slot, that of this runtime's type; `Arc` shares the observer in it.
pub mod Registration
pub mod Slot
pub mod Storage
pub mod Unobserved
pub mod Registry
use frost_substrate.Prelude.{
  ℕ, Bool, true, false, not, ◌&&◌, Option, none, some, List, [], ◌∷◌, ◌++◌, Bytes, length, ◌==◌,
  insert, if◌then◌else◌, Result, ok, err, Fault, error, panic,
}
use frost_substrate.External.Float.{Float}
use frost_substrate.External.Frost.{PredicateConfig}
use frost_substrate.External.Grandpa.{Grandpa}
use frost_substrate.External.State.{States}
use frost_substrate.Observer.{
  WatchTarget, MessageRouter, Observer, ProtocolError, register_target, new_observer,
}
use frost_substrate.Proof.{Surroundings}
use frost_substrate.Proof.Merkle.{merkle_generator}

pub data Event : Type 0 where
  watch_target_registered : (target_hash : Bytes) → Event
  proof_generated : (proof_hash target_chain : Bytes) → Event
  message_routed : (msg_hash target_chain : Bytes) → Event

pub data PalletError : Type 0 where
  invalid_watch_target invalid_proof proof_too_large routing_failed : PalletError

pub data DispatchError : Type 0 where
  bad_origin : DispatchError
  module_error : PalletError → DispatchError

-- `RawOrigin` of frame_system.
pub data RawOrigin : Type 0 where
  root : RawOrigin
  signed : ℕ → RawOrigin
  unsigned : RawOrigin

abbrev pub ensure_signed : RawOrigin → Bool
ensure_signed (signed who) = true
ensure_signed root = false
ensure_signed unsigned = false

-- `OBSERVERS`: a lock, which a panic under the write guard poisons, and the entry of the runtime.
pub record ObserverSlot (C P M V F : Type 0) : Type 0 where
  pub poisoned : Bool
  pub entry : Option (Observer C P M V F)

pub record Pallet (C P M V F : Type 0) : Type 0 where
  pub watch_targets : List (Bytes × WatchTarget)
  pub events : List Event
  pub slot : ObserverSlot C P M V F

-- What the runtime configures: `T::FrostHash::hash` of an encoded target, the default router, the client
-- behind the Merkle generator, and the foreign defaults.
pub record Runtime (C P M V F : Type 0) : Type 0 where
  pub grandpa : Grandpa V
  pub states : States C P
  pub config : PredicateConfig F
  pub gauge : ℕ
  pub world : Surroundings
  pub router : Option (MessageRouter M)
  pub hash : WatchTarget → Bytes

module _ {C P M V F : Type 0} ⦃fl : Float F⦄ (runtime : Runtime C P M V F) where
  -- The observer that `ensure_observer` makes.
  abbrev pub default_observer : Result (Fault (ProtocolError C)) (Observer C P M V F)
  default_observer =
      new_observer runtime.grandpa runtime.config runtime.gauge
        (merkle_generator runtime.states runtime.world) runtime.router

  abbrev keep_observer :
      Result (Fault (ProtocolError C)) (Observer C P M V F)
      → ObserverSlot C P M V F
      → Result (Fault DispatchError) (Option (Observer C P M V F)) × ObserverSlot C P M V F
  keep_observer (ok made) slot = (ok (some made), record slot { entry = some made })
  keep_observer (err e) slot = (err panic, record slot { poisoned = true })

  unfoldable pub ensure_observer :
      ObserverSlot C P M V F
      → Result (Fault DispatchError) (Option (Observer C P M V F)) × ObserverSlot C P M V F
  ensure_observer slot = if slot.poisoned then (ok none, slot) else elim slot.entry [
    | some observer ↦ (ok (some observer), slot)
    | none ↦ keep_observer default_observer slot
  ]

  -- `observer()`.
  abbrev pub get_observer :
      ObserverSlot C P M V F
      → Result (Fault DispatchError) (Option (Observer C P M V F)) × ObserverSlot C P M V F
  get_observer = ensure_observer

  -- The weight is zero; `let _` drops the observer, and a panic goes through.
  unfoldable pub on_initialize :
      ℕ → Pallet C P M V F → Result (Fault DispatchError) ℕ × Pallet C P M V F
  unfolding ensure_observer
  on_initialize n p =
      let (r, slot) = ensure_observer p.slot in
      let p' = record p { slot = slot } in elim r [ ok o ↦ (ok 0, p') | err e ↦ (err e, p') ]

  -- The observer in the slot is the one that `Arc` gives out.
  abbrev tell_observer :
      WatchTarget → Option (Observer C P M V F) → ObserverSlot C P M V F → ObserverSlot C P M V F
  tell_observer target none slot = slot
  tell_observer target (some o) slot = record slot { entry = some (register_target target o) }

  unfoldable pub register_watch_target :
      RawOrigin
      → WatchTarget
      → Pallet C P M V F
      → Result (Fault DispatchError) (Unit {0}) × Pallet C P M V F
  unfolding ensure_observer
  register_watch_target origin target p =
      if not (ensure_signed origin)
      then (err (error bad_origin), p)
      else if not (not (length target.module_name == 0) && not (length target.function_name == 0))
      then (err (error (module_error invalid_watch_target)), p)
      else let target_hash = runtime.hash target in
        let stored = insert target_hash target p.watch_targets in
        let (r, slot) = get_observer p.slot in
        elim r [
          | err e ↦ (err e, record p { watch_targets = stored; slot = slot })
          | ok found ↦ (
            ok tt,
            record p {
              watch_targets = stored;
              slot = tell_observer target found slot;
              events = p.events ++ watch_target_registered target_hash ∷ [];
            },
          )
        ]
