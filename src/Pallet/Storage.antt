-- ===== src/Pallet/Storage.antt =====
-- What holds of the storage of the pallet, whatever calls and blocks come: src/lib.rs 125-132.
use frost_substrate.Prelude.{
  ℕ, ◌≡◌, true, Bytes, All, insert-All, Bool-cases, Result-cases, inl, inr, refl,
}
use frost_substrate.External.Float.{Float}
use frost_substrate.Observer.{WatchTarget}
use frost_substrate.Pallet.{
  Runtime, Pallet, RawOrigin, ensure_signed, ensure_observer, on_initialize, register_watch_target,
}
use frost_substrate.Pallet.Registration.{is_named}

module _ {C P M V F : Type 0} ⦃fl : Float F⦄ (runtime : Runtime C P M V F) where
  -- A call of the pallet, or the hook of a block, whatever it answers.
  pub data Called : Pallet C P M V F → Pallet C P M V F → Type 0 where
    registers :
        (origin : RawOrigin) (target : WatchTarget) (p : Pallet C P M V F)
        → Called p (register_watch_target runtime origin target p).1
    initializes : (n : ℕ) (p : Pallet C P M V F) → Called p (on_initialize runtime n p).1

  pub data CalledFrom (genesis : Pallet C P M V F) : Pallet C P M V F → Type 0 where
    at_genesis : CalledFrom genesis genesis
    by_call : {p p' : Pallet C P M V F} → Called p p' → CalledFrom genesis p → CalledFrom genesis p'

  -- An entry stands under the hash of its target, which names a module and a function.
  abbrev IsKeyed : Bytes × WatchTarget → Type 0
  IsKeyed e = (e.0 ≡ runtime.hash e.1) × (is_named runtime e.1 ≡ true)

  abbrev pub IsKeyedStorage : Pallet C P M V F → Type 0
  IsKeyedStorage p = All IsKeyed p.watch_targets

  register_watch_target-IsKeyedStorage :
      (origin : RawOrigin) (target : WatchTarget) (p : Pallet C P M V F)
      → IsKeyedStorage p
      → IsKeyedStorage (register_watch_target runtime origin target p).1
  unfolding register_watch_target
  register_watch_target-IsKeyedStorage origin target p keyed =
      elim (Bool-cases (ensure_signed origin)) [
        | inr refusal ↦ rw refusal keyed
        | inl si ↦ elim (Bool-cases (is_named runtime target)) [
          | inr refusal ↦ rw (si, refusal) keyed
          | inl named ↦
              let stored =
                insert-All IsKeyed (runtime.hash target) target p.watch_targets (refl, named)
                  keyed in
              elim (Result-cases (ensure_observer runtime p.slot).0) [
                | inr (e, bad) ↦ rw (si, named, bad) stored
                | inl (o, found) ↦ rw (si, named, found) stored
              ]
        ]
      ]

  on_initialize-IsKeyedStorage :
      (n : ℕ) (p : Pallet C P M V F)
      → IsKeyedStorage p
      → IsKeyedStorage (on_initialize runtime n p).1
  unfolding on_initialize
  on_initialize-IsKeyedStorage n p keyed = elim (Result-cases (ensure_observer runtime p.slot).0) [
    | inr (e, bad) ↦ rw (bad, on_initialize) keyed
    | inl (o, found) ↦ rw (found, on_initialize) keyed
  ]

  -- From a storage that is keyed, as the empty one is, every sequence of calls and blocks leads to a
  -- keyed storage: each target that is stored names a module and a function, and stands under its hash.
  pub CalledFrom-IsKeyedStorage :
      (genesis : Pallet C P M V F)
      → IsKeyedStorage genesis
      → {p : Pallet C P M V F} → CalledFrom genesis p
      → IsKeyedStorage p
  CalledFrom-IsKeyedStorage genesis keyed at_genesis = keyed
  CalledFrom-IsKeyedStorage genesis keyed (by_call (registers origin target p) from) =
      register_watch_target-IsKeyedStorage origin target p
        (CalledFrom-IsKeyedStorage genesis keyed from)
  CalledFrom-IsKeyedStorage genesis keyed (by_call (initializes n p) from) =
      on_initialize-IsKeyedStorage n p (CalledFrom-IsKeyedStorage genesis keyed from)
