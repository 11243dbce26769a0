-- ===== src/Pallet/Slot.antt =====
-- The one observer of a runtime, src/lib.rs 210-266.
use frost_substrate.Prelude.{
  ◌≢◌, ◌≡◌, refl, false, none, ok, err, error, panic, Bool-cases, Option-cases, inl, inr,
}
use frost_substrate.External.Float.{Float}
use frost_substrate.External.Grandpa.{IsVoterSets}
use frost_substrate.Observer.{new_observer}
use frost_substrate.Pallet.{
  Runtime, ObserverSlot, DispatchError, default_observer, keep_observer, ensure_observer,
}

module _ {C P M V F : Type 0} ⦃fl : Float F⦄ (runtime : Runtime C P M V F) where
  -- Making the observer fails with a panic only.
  pub keep_observer-no_error :
      (made : _) (slot slot' : ObserverSlot C P M V F) (e : DispatchError)
      → keep_observer runtime made slot ≢ (err (error e), slot')
  keep_observer-no_error (ok o) slot slot' e h = cc
  keep_observer-no_error (err x) slot slot' e h = cc

  pub ensure_observer-no_error :
      (slot slot' : ObserverSlot C P M V F) (e : DispatchError)
      → ensure_observer runtime slot ≢ (err (error e), slot')
  unfolding ensure_observer
  ensure_observer-no_error slot slot' e h = elim (Bool-cases slot.poisoned) [
    | inl bad ↦ cc (rw (bad, ensure_observer) at h)
    | inr good ↦ elim (Option-cases slot.entry) [
      | inl empty ↦ keep_observer-no_error _ slot slot' e (rw (good, empty, ensure_observer) at h)
      | inr (o, there) ↦ cc (rw (good, there, ensure_observer) at h)
    ]
  ]

  pub default_observer-empty : IsVoterSets V runtime.grandpa → default_observer runtime ≡ err panic
  unfolding new_observer
  default_observer-empty laws = rw laws.new_empty

  -- With voter sets as documented, the default observer is never made: the first call on an empty slot
  -- panics and poisons the lock, and every call after it finds no observer.
  pub ensure_observer_never :
      IsVoterSets V runtime.grandpa
      → (slot : ObserverSlot C P M V F) → slot.poisoned ≡ false
      → slot.entry ≡ none
      → let (r, slot') = ensure_observer runtime slot in
        (r ≡ err panic) × (ensure_observer runtime slot' ≡ (ok none, slot'))
  unfolding ensure_observer
  ensure_observer_never laws slot good empty =
      rw (good, empty, default_observer-empty laws, ensure_observer) (refl, refl)
