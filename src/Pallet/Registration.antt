-- ===== src/Pallet/Registration.antt =====
-- `register_watch_target`, src/lib.rs 165-193: what it stores, and what it leaves alone.
use frost_substrate.Prelude.{
  sym, ◌≡◌, refl, ◌∙◌, ap, Bool, true, not, ◌&&◌, ◌==◌, length, Option, some, [], ◌∷◌, ◌++◌, Bytes,
  bytes_eq, lookup, lookup-insert, if◌then◌else◌, ok, err, error, Bool-cases, Result-cases, inl,
  inr,
}
use frost_substrate.External.Float.{Float}
use frost_substrate.Observer.{Observer, WatchTarget}
use frost_substrate.Pallet.{
  Runtime, Pallet, RawOrigin, DispatchError, ensure_signed, ensure_observer, register_watch_target,
  tell_observer, watch_target_registered, ObserverSlot,
}
use frost_substrate.Pallet.Slot.{ensure_observer-no_error}

module _ {C P M V F : Type 0} ⦃fl : Float F⦄ (runtime : Runtime C P M V F) where
  -- The two names of a target have to be there.
  abbrev pub is_named : WatchTarget → Bool
  is_named t = not (length t.module_name == 0) && not (length t.function_name == 0)

  -- What a registration that went through has done, given the observer it met.
  pub record IsRegistered (target : WatchTarget) (p p' : Pallet C P M V F) : Type 0 where
    pub stored :
        (k : Bytes)
        → lookup k p'.watch_targets
          ≡ (if bytes_eq (runtime.hash target) k then some target else lookup k p.watch_targets)
    pub deposited : p'.events ≡ p.events ++ watch_target_registered (runtime.hash target) ∷ []
    pub observer : Option (Observer C P M V F)
    pub slot : ObserverSlot C P M V F
    pub ensured : ensure_observer runtime p.slot ≡ (ok observer, slot)
    pub told : p'.slot ≡ tell_observer runtime target observer slot

  -- A registration that answers Ok came from a signed origin and names a module and a function. It
  -- changes the entry of the target's hash and no other, deposits one event, and tells the observer,
  -- when there is one.
  pub register_watch_target-IsRegistered :
      (origin : RawOrigin) (target : WatchTarget) (p p' : Pallet C P M V F)
      → register_watch_target runtime origin target p ≡ (ok tt, p')
      → (ensure_signed origin ≡ true) × (is_named target ≡ true) × IsRegistered target p p'
  unfolding register_watch_target
  register_watch_target-IsRegistered origin target p p' h =
      elim (Bool-cases (ensure_signed origin)) [
        | inr refusal ↦ cc (rw refusal at h)
        | inl si ↦ elim (Bool-cases (is_named target)) [
          | inr refusal ↦ cc (rw (si, refusal) at h)
          | inl named ↦ elim (Result-cases (ensure_observer runtime p.slot).0) [
            | inr (e, bad) ↦ cc (rw (si, named, bad) at h)
            | inl (o, found) ↦
                let e : _ ≡ p' = ap (λ r. r.1) (rw (si, named, found) at h) in
                (
                  si,
                  named,
                  rw (sym e) record {
                    stored = λ k. lookup-insert (runtime.hash target) k target p.watch_targets;
                    deposited = refl;
                    observer = o;
                    slot = (ensure_observer runtime p.slot).1;
                    ensured = cc;
                    told = refl;
                  },
                )
          ]
        ]
      ]

  -- A registration that fails with an error leaves the pallet as it was.
  pub register_watch_target_refused :
      (origin : RawOrigin) (target : WatchTarget) (p p' : Pallet C P M V F) (e : DispatchError)
      → register_watch_target runtime origin target p ≡ (err (error e), p')
      → p' ≡ p
  unfolding register_watch_target
  register_watch_target_refused origin target p p' e h = elim (Bool-cases (ensure_signed origin)) [
    | inr refusal ↦ cc (rw refusal at h)
    | inl si ↦ elim (Bool-cases (is_named target)) [
      | inr refusal ↦ cc (rw (si, refusal) at h)
      | inl named ↦ elim (Result-cases (ensure_observer runtime p.slot).0) [
        | inr (x, bad) ↦
            let answered = ap (λ r. r.0) (rw (si, named, bad) at h) in
            let reason : x ≡ error e = cc answered in
            let same = bad ∙ ap err reason in
            let slot = (ensure_observer runtime p.slot).1 in
            absurd (ensure_observer-no_error runtime p.slot slot e (ap (λ r. (r, slot)) same))
        | inl (o, found) ↦ cc (rw (si, named, found) at h)
      ]
    ]
  ]
