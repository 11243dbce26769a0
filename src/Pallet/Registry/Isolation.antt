-- ===== src/Pallet/Registry/Isolation.antt =====
-- What one runtime does to the others of its process, over every sequence of calls of `ensure_observer`.
use frost_substrate.Prelude.{
  ℕ, ◌≡◌, refl, ap, ◌∙◌, true, false, none, List, [], ◌∷◌, ok, err, panic,
}
use frost_substrate.External.Grandpa.{IsVoterSets}
use frost_substrate.Pallet.Registry.{Carriers, RuntimeOf, Registry, observer_at, ensure_observer_in}
use frost_substrate.Pallet.Slot.{default_observer-empty}

module _ (types : ℕ → Carriers) (runtimes : (id : ℕ) → RuntimeOf types id) where
  -- The runtimes call one after another.
  unfoldable pub run_calls_in : List ℕ → Registry types → Registry types
  run_calls_in [] r = r
  run_calls_in (id ∷ rest) r = run_calls_in rest (ensure_observer_in types runtimes id r).1

  ensure_observer_in-poisoned :
      (id : ℕ) (r : Registry types)
      → r.poisoned ≡ true
      → ensure_observer_in types runtimes id r ≡ (ok none, r)
  unfolding ensure_observer_in
  ensure_observer_in-poisoned id r bad = rw bad

  run_calls_in-poisoned :
      (ids : List ℕ) (r : Registry types) → r.poisoned ≡ true → run_calls_in ids r ≡ r
  unfolding run_calls_in
  run_calls_in-poisoned [] r bad = refl
  run_calls_in-poisoned (id ∷ rest) r bad =
      ap (λ x. run_calls_in rest x.1) (ensure_observer_in-poisoned id r bad)
      ∙ run_calls_in-poisoned rest r bad

  panics :
      (id : ℕ) (r : Registry types)
      → IsVoterSets (types id).voters (runtimes id).grandpa
      → r.poisoned ≡ false
      → observer_at types id r ≡ none
      → ensure_observer_in types runtimes id r ≡ (err panic, record r { poisoned = true })
  unfolding ensure_observer_in
  panics id r laws good empty =
      rw (good, empty, default_observer-empty ⦃fl = (types id).float⦄ (runtimes id) laws)

  -- One runtime takes the others down with it: with voter sets as documented and the lock sound, the first
  -- call of a runtime that has no observer panics. After it the observers of the others are still there,
  -- but no call of any runtime gets one, whoever else calls in between.
  pub run_calls_in_spoilt :
      (id j : ℕ) (between : List ℕ) (r : Registry types)
      → IsVoterSets (types id).voters (runtimes id).grandpa
      → r.poisoned ≡ false
      → observer_at types id r ≡ none
      → let (answer, r') = ensure_observer_in types runtimes id r in
        (answer ≡ err panic)
        × (observer_at types j r' ≡ observer_at types j r)
        × (ensure_observer_in types runtimes j (run_calls_in between r')
            ≡ (ok none, run_calls_in between r'))
  run_calls_in_spoilt id j between r laws good empty =
      let spoilt : Registry types = record r { poisoned = true } in
      let fails = panics id r laws good empty in
      let stuck : (run_calls_in between spoilt).poisoned ≡ true =
        ap (λ (x : Registry types). x.poisoned) (run_calls_in-poisoned between spoilt refl) in
      rw fails (refl, refl, ensure_observer_in-poisoned j (run_calls_in between spoilt) stuck)
