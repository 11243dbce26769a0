-- ===== src/Finality/Predicate/Waiting.antt =====
-- `wait_for_finality`: it ends, and how.
use frost_substrate.Prelude.{
  ◌⊎◌, ℕ, zero, suc, ◌+◌, ltb_iff, ◌/◌, ◌*◌, ◌≤◌, ◌<◌, ◌≡◌, refl, ◌∙◌, true, false, some, ltb,
  arith, Result, ok, err, Bool-cases, Result-cases, inl, inr,
}
use native.Mathlib.Decide.{ℕ_discrete}
use native.Mathlib.Numerals.{add-one}
use frost_substrate.External.Float.{Float}
use frost_substrate.External.Frost.{Frost, BlockRef, PredicateConfig, FinalityError, timeout}
use frost_substrate.Finality.Config.{from_secs}
use frost_substrate.Finality.Predicate.{Bool, Round, is_final, wait_from, wait_for_finality}

fuel_eq : (n : ℕ) → n + 2 ≡ suc (n + 1)
fuel_eq n = omega arith

module _ {C F : Type 0} ⦃fl : Float F⦄ (frost : Frost C) (config : PredicateConfig F)
    (rounds : ℕ → Round frost config) (block_ref : BlockRef C) where
  -- What `is_final` answers in a round.
  abbrev pub answer : ℕ → Result (FinalityError C) Bool
  answer i = is_final frost config (rounds i).moments block_ref

  -- Every round before `n` said no in time.
  abbrev pub WaitsUntil : ℕ → Type 0
  WaitsUntil n =
      (i : ℕ) → i < n → (answer i ≡ ok false) × ((rounds i).elapsed ≤ config.evaluation_timeout)

  -- How a wait ends in round `n`: with a yes, with an error of `is_final`, or with a no that comes
  -- after the timeout.
  abbrev pub EndsBy : ℕ → Result (FinalityError C) (Unit {0}) → Type 0
  EndsBy n (ok u) = answer n ≡ ok true
  EndsBy n (err e) =
      (answer n ≡ err e)
      ⊎ ((answer n ≡ ok false)
          × (config.evaluation_timeout < (rounds n).elapsed)
          × (e ≡ timeout block_ref config.evaluation_timeout n))

  pub record Ended (n : ℕ) (r : Result (FinalityError C) (Unit {0})) : Type 0 where
    pub waited : WaitsUntil n
    pub ends : EndsBy n r

  WaitsUntil-suc :
      (n : ℕ)
      → WaitsUntil n
      → answer n ≡ ok false
      → (rounds n).elapsed ≤ config.evaluation_timeout
      → WaitsUntil (suc n)
  WaitsUntil-suc n w refused in_time i h = elim (ℕ_discrete i n) [
    | yes e ↦ rw e (refused, in_time)
    | no ne ↦ w i (omega arith)
  ]

  -- A no in time goes on to the next round.
  wait_from-again :
      (fuel n : ℕ)
      → answer n ≡ ok false
      → ltb config.evaluation_timeout (rounds n).elapsed ≡ false
      → wait_from frost config (suc fuel) rounds block_ref n
        ≡ wait_from frost config fuel rounds block_ref (n + 1)
  unfolding wait_from
  wait_from-again fuel n refused on = rw (refused, on, wait_from)

  wait_from-Ended :
      (fuel n k : ℕ)
      → n + fuel ≡ suc k
      → config.evaluation_timeout < (rounds k).elapsed
      → WaitsUntil n
      → (m : ℕ) × (r : Result (FinalityError C) (Unit {0})) × (m ≤ k)
        × (wait_from frost config fuel rounds block_ref n ≡ some r)
        × Ended m r
  unfolding wait_from
  wait_from-Ended zero n k room late w = absurd (omega (arith, (w k (omega arith)).1))
  wait_from-Ended (suc fuel) n k room late w = elim (Result-cases (answer n)) [
    | inr (e, failed) ↦
        (n, err e, omega arith, rw (failed, wait_from), record { waited = w; ends = inl failed })
    | inl (b, said) ↦ elim (Bool-cases b) [
      | inl yes_said ↦
          let accepted : answer n ≡ ok true = rw yes_said at said in
          (n, ok tt, omega arith, rw (accepted, wait_from), record { waited = w; ends = accepted })
      | inr no_said ↦
          let refused : answer n ≡ ok false = rw no_said at said in
          elim (Bool-cases (ltb config.evaluation_timeout (rounds n).elapsed)) [
            | inl out ↦ (
              n,
              err (timeout block_ref config.evaluation_timeout n),
              omega arith,
              rw (refused, out, wait_from),
              record { waited = w; ends = inr (refused, (ltb_iff _ _).0 out, refl) },
            )
            | inr on ↦
                let in_time : (rounds n).elapsed ≤ config.evaluation_timeout = ground arith in
                let w' = WaitsUntil-suc n w refused in_time in
                let (m, r, below, eq, ended) =
                  wait_from-Ended fuel (n + 1) k (omega arith) late (rw add-one w') in
                (m, r, below, wait_from-again fuel n refused on ∙ eq, ended)
          ]
    ]
  ]

  -- A wait ends: if the clock is past the timeout in round `k` (every round sleeps for two seconds
  -- first, so that some round is), fuel for the rounds up to `k` gives a result. It comes in some
  -- round up to `k`; all rounds before it said no, each in time; and in it the predicate said yes (and
  -- the wait succeeds), or failed (and the wait fails with its error), or said no after the timeout
  -- (and the wait fails with the timeout and the number of retries).
  pub wait_for_finality_ends :
      (k : ℕ)
      → config.evaluation_timeout < (rounds k).elapsed
      → (m : ℕ) × (r : Result (FinalityError C) (Unit {0})) × (m ≤ k)
        × (wait_for_finality frost config (suc k) rounds block_ref ≡ some r)
        × Ended m r
  wait_for_finality_ends k late = wait_from-Ended (suc k) 0 k (omega arith) late (λ i h. elim h [ ])

  -- A wait is bounded by the sleeps: if round `i` looks at the clock at `2 * i` seconds or later, fuel
  -- for one round more than half the timeout's seconds gives a result.
  pub wait_for_finality_total :
      ((i : ℕ) → from_secs (2 * i) ≤ (rounds i).elapsed)
      → (r : Result (FinalityError C) (Unit {0})) × (wait_for_finality frost config
            (config.evaluation_timeout / from_secs 2 + 2)
            rounds
            block_ref
          ≡ some r)
  wait_for_finality_total sleeps =
      let k = config.evaluation_timeout / from_secs 2 + 1 in
      let (m, r, below, eq, ended) = wait_for_finality_ends k (omega (arith, sleeps k)) in
      (r, rw (fuel_eq (config.evaluation_timeout / from_secs 2)) eq)
