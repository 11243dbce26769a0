-- ===== src/Pallet/Unobserved.antt =====
-- A pallet whose slot starts empty, with voter sets as documented.
use frost_substrate.Prelude.{
  bytes_eq_refl, lookup, ℕ, ◌≡◌, refl, sym, ap, ◌∙◌, ◌⊎◌, inl, inr, true, false, none, some, ok,
  err, panic, [], ◌∷◌, ◌++◌, Bool-cases,
}
use frost_substrate.External.Float.{Float}
use frost_substrate.External.Grandpa.{IsVoterSets}
use frost_substrate.Observer.{WatchTarget}
use frost_substrate.Pallet.{
  watch_target_registered, Runtime, Pallet, ObserverSlot, RawOrigin, ensure_signed, ensure_observer,
  on_initialize, register_watch_target,
}
use frost_substrate.Pallet.Registration.{register_watch_target-IsRegistered, is_named}
use frost_substrate.Pallet.Slot.{default_observer-empty}
use frost_substrate.Pallet.Storage.{registers, initializes, CalledFrom, at_genesis, by_call}

module _ {C P M V F : Type 0} ⦃fl : Float F⦄ (runtime : Runtime C P M V F) where
  -- An empty slot, before and after the panic.
  abbrev pub unmade : ObserverSlot C P M V F
  unmade = record { poisoned = false; entry = none }

  abbrev pub unmakeable : ObserverSlot C P M V F
  unmakeable = record { poisoned = true; entry = none }

  abbrev pub IsUnobserved : Pallet C P M V F → Type 0
  IsUnobserved p = (p.slot ≡ unmade) ⊎ (p.slot ≡ unmakeable)

  ensure_observer-unmade :
      IsVoterSets V runtime.grandpa → ensure_observer runtime unmade ≡ (err panic, unmakeable)
  unfolding ensure_observer
  ensure_observer-unmade laws = rw (default_observer-empty runtime laws)

  ensure_observer-unmakeable : ensure_observer runtime unmakeable ≡ (ok none, unmakeable)
  unfolding ensure_observer
  ensure_observer-unmakeable = refl

  meets_unmade :
      IsVoterSets V runtime.grandpa
      → (p : Pallet C P M V F) → p.slot ≡ unmade
      → ensure_observer runtime p.slot ≡ (err panic, unmakeable)
  meets_unmade laws p fresh = ap (ensure_observer runtime) fresh ∙ ensure_observer-unmade laws

  meets_unmakeable :
      (p : Pallet C P M V F)
      → p.slot ≡ unmakeable
      → ensure_observer runtime p.slot ≡ (ok none, unmakeable)
  meets_unmakeable p spoilt = ap (ensure_observer runtime) spoilt ∙ ensure_observer-unmakeable

  register_watch_target-IsUnobserved :
      IsVoterSets V runtime.grandpa
      → (origin : RawOrigin) (target : WatchTarget) (p : Pallet C P M V F) → IsUnobserved p
      → IsUnobserved (register_watch_target runtime origin target p).1
  unfolding register_watch_target
  register_watch_target-IsUnobserved laws origin target p i =
      elim (Bool-cases (ensure_signed origin)) [
        | inr refusal ↦ rw refusal i
        | inl si ↦ elim (Bool-cases (is_named runtime target)) [
          | inr refusal ↦ rw (si, refusal) i
          | inl named ↦ elim i [
            | inl fresh ↦
                rw (si, named, meets_unmade laws p fresh)
                  (inr (ap (λ x. x.1) (meets_unmade laws p fresh)))
            | inr spoilt ↦
                rw (si, named, meets_unmakeable p spoilt)
                  (inr (ap (λ x. x.1) (meets_unmakeable p spoilt)))
          ]
        ]
      ]

  on_initialize-IsUnobserved :
      IsVoterSets V runtime.grandpa
      → (n : ℕ) (p : Pallet C P M V F) → IsUnobserved p
      → IsUnobserved (on_initialize runtime n p).1
  unfolding on_initialize
  on_initialize-IsUnobserved laws n p (inl fresh) =
      rw (meets_unmade laws p fresh, on_initialize)
        (inr (ap (λ x. x.1) (meets_unmade laws p fresh)))
  on_initialize-IsUnobserved laws n p (inr spoilt) =
      rw (meets_unmakeable p spoilt, on_initialize)
        (inr (ap (λ x. x.1) (meets_unmakeable p spoilt)))

  pub CalledFrom-IsUnobserved :
      IsVoterSets V runtime.grandpa
      → (genesis : Pallet C P M V F) → genesis.slot ≡ unmade
      → {p : Pallet C P M V F} → CalledFrom runtime genesis p
      → IsUnobserved p
  CalledFrom-IsUnobserved laws genesis fresh at_genesis = inl fresh
  CalledFrom-IsUnobserved laws genesis fresh (by_call (registers origin target p) from) =
      register_watch_target-IsUnobserved laws origin target p
        (CalledFrom-IsUnobserved laws genesis fresh from)
  CalledFrom-IsUnobserved laws genesis fresh (by_call (initializes n p) from) =
      on_initialize-IsUnobserved laws n p (CalledFrom-IsUnobserved laws genesis fresh from)

  -- Nobody watches what the pallet accepts, if voter sets are as documented and the slot starts empty:
  -- whatever calls and blocks came before, a registration that answers Ok meets a lock that a panic has
  -- poisoned; it stores the target and announces it, and there is no observer to be told of it.
  pub register_watch_target_unwatched :
      IsVoterSets V runtime.grandpa
      → (genesis : Pallet C P M V F) → genesis.slot ≡ unmade
      → {p : Pallet C P M V F} → CalledFrom runtime genesis p
      → (origin : RawOrigin) (target : WatchTarget) (p' : Pallet C P M V F)
      → register_watch_target runtime origin target p ≡ (ok tt, p')
      → (p.slot ≡ unmakeable)
        × (p'.slot ≡ unmakeable)
        × (lookup (runtime.hash target) p'.watch_targets ≡ some target)
        × (p'.events ≡ p.events ++ watch_target_registered (runtime.hash target) ∷ [])
  register_watch_target_unwatched laws genesis fresh {p} from origin target p' e =
      let (si, named, r) = register_watch_target-IsRegistered runtime origin target p p' e in
      let same = bytes_eq_refl (runtime.hash target) in
      let stored : lookup (runtime.hash target) p'.watch_targets ≡ some target =
        r.stored (runtime.hash target) ∙ rw same refl in
      elim (CalledFrom-IsUnobserved laws genesis fresh from) [
        | inl new ↦ absurd (cc (ap (λ x. x.0) (sym r.ensured ∙ meets_unmade laws p new)))
        | inr spoilt ↦
            let met = sym r.ensured ∙ meets_unmakeable p spoilt in
            let nobody : r.observer ≡ none = cc (ap (λ x. x.0) met) in
            let slot : r.slot ≡ unmakeable = ap (λ x. x.1) met in
            (spoilt, r.told ∙ rw (nobody, slot) refl, stored, r.deposited)
      ]
