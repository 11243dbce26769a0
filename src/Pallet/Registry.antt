-- ===== src/Pallet/Registry.antt =====
-- src/lib.rs 223-250: `OBSERVERS`, the process-wide map from type ids to boxed observers that the pallets of
-- all runtimes share.
pub mod Isolation
use frost_substrate.Prelude.{
  ℕ, Bool, true, ◌==◌, if◌then◌else◌, Option, none, some, Result, ok, err, Fault, panic,
}
use mathlib.Core.Logic.{dite}
use mathlib.Core.Path.{subst}
use native.Mathlib.Decide.{ℕ_discrete}
use frost_substrate.External.Float.{Float}
use frost_substrate.Observer.{Observer, ProtocolError}
use frost_substrate.Pallet.{Runtime, ObserverSlot, DispatchError, default_observer}

-- The foreign types of a runtime.
pub record Carriers : Type 1 where
  pub chain_ids : Type 0
  pub proofs : Type 0
  pub messages : Type 0
  pub voters : Type 0
  pub floats : Type 0
  pub float : Float floats

module _ (types : ℕ → Carriers) where
  -- `Arc<SSMPObserver<T>>` for the runtime with this type id.
  abbrev pub ObserverOf : ℕ → Type 0
  ObserverOf id = let t = types id in Observer t.chain_ids t.proofs t.messages t.voters t.floats

  abbrev pub RuntimeOf : ℕ → Type 0
  RuntimeOf id = let t = types id in Runtime t.chain_ids t.proofs t.messages t.voters t.floats

  -- `Box<dyn Any>`: a value with the id of its type.
  pub record Boxed : Type 0 where
    pub type_id : ℕ
    pub value : ObserverOf type_id

  abbrev pub downcast_ref : (id : ℕ) → Boxed → Option (ObserverOf id)
  downcast_ref id boxed =
      dite (ℕ_discrete boxed.type_id id) (λ e. some (subst ObserverOf e boxed.value)) (λ n. none)

  pub record Registry : Type 0 where
    pub poisoned : Bool
    pub observers : ℕ → Option Boxed

  -- `observers.get(&type_id)` with its downcast.
  abbrev pub downcast_entry : (id : ℕ) → Option Boxed → Option (ObserverOf id)
  downcast_entry id none = none
  downcast_entry id (some boxed) = downcast_ref id boxed

  abbrev pub observer_at : (id : ℕ) → Registry → Option (ObserverOf id)
  observer_at id r = downcast_entry id (r.observers id)

  abbrev pub insert_observer : (id : ℕ) → ObserverOf id → Registry → Registry
  insert_observer id o r = record r {
    observers = λ j. if id == j then some (record { type_id = id; value = o }) else r.observers j;
  }

  abbrev pub keep_in :
      {E : Type 0} (id : ℕ)
      → Result E (ObserverOf id)
      → Registry
      → Result (Fault DispatchError) (Option (ObserverOf id)) × Registry
  keep_in id (ok made) r = (ok (some made), insert_observer id made r)
  keep_in id (err e) r = (err panic, record r { poisoned = true })

  module _ (runtimes : (id : ℕ) → RuntimeOf id) where
    -- `ensure_observer` of one of the runtimes.
    unfoldable pub ensure_observer_in :
        (id : ℕ) → Registry → Result (Fault DispatchError) (Option (ObserverOf id)) × Registry
    ensure_observer_in id r = if r.poisoned then (ok none, r) else elim (observer_at id r) [
      | some observer ↦ (ok (some observer), r)
      | none ↦ keep_in id (default_observer ⦃fl = (types id).float⦄ (runtimes id)) r
    ]
