-- ===== src/Finality/Predicate/Liveness.antt =====
-- When a wait for finality succeeds, in terms of what the chain does.
use frost_substrate.Prelude.{
  ℕ, zero, suc, ◌+◌, ◌≤◌, ◌<◌, ◌≡◌, true, false, Bool, some, ltb, arith, Bool-cases, inl, inr, ok,
}
use frost_substrate.External.Chain.{Header}
use frost_substrate.External.Float.{Float}
use frost_substrate.External.Frost.{Frost, BlockRef, PredicateConfig}
use frost_substrate.External.Grandpa.{Grandpa}
use frost_substrate.Finality.Client.Queries.{u64_to_block_number}
use frost_substrate.Finality.Predicate.{Round, is_final, wait_from, wait_for_finality}
use frost_substrate.Finality.Predicate.Answers.{
  Awaits, KnowsThroughout, IsSettled, answers, is_final_settled, is_final_answers,
}

module _ {C F : Type 0} ⦃fl : Float F⦄ (frost : Frost C) (config : PredicateConfig F)
    (rounds : ℕ → Round frost config) (block_ref : BlockRef C) where
  -- A wait succeeds, in round `k` at the latest, if that round says yes and every round before it
  -- answers in time.
  wait_from_yes :
      (fuel n k : ℕ)
      → n + fuel ≡ k
      → ((i : ℕ)
          → i < k
          → ((b : Bool) × (is_final frost config (rounds i).moments block_ref ≡ ok b))
            × ((rounds i).elapsed ≤ config.evaluation_timeout))
      → is_final frost config (rounds k).moments block_ref ≡ ok true
      → wait_from frost config (suc fuel) rounds block_ref n ≡ some (ok tt)
  unfolding wait_from
  wait_from_yes zero n k last before accepted =
      let here : k ≡ n = omega arith in
      let now : is_final frost config (rounds n).moments block_ref ≡ ok true =
        rw here at accepted in
      rw (now, wait_from)
  wait_from_yes (suc fuel) n k last before accepted =
      let ((b, said), in_time) = before n (omega arith) in
      let on : ltb config.evaluation_timeout (rounds n).elapsed ≡ false = ground arith in
      elim (Bool-cases b) [
        | inl accepted_now ↦ rw (said, accepted_now, wait_from)
        | inr refused ↦
            rw (said, refused, on, wait_from)
              (wait_from_yes fuel (n + 1) k (omega arith) before accepted)
      ]

module _ {C V F : Type 0} ⦃fl : Float F⦄ (g : Grandpa V) (frost : Frost C)
    (config : PredicateConfig F) (block_ref : BlockRef C) (header : Header) where
  abbrev pub rounds_of : (ℕ → Awaits V F) → (ℕ → ℕ) → ℕ → Round frost config
  rounds_of awaits clock i = record { moments = answers g frost (awaits i); elapsed = clock i }

  -- Finality arrives: if the chain knows the block under its number throughout the wait, then a wait
  -- succeeds that reaches, before its timeout, a round in which the block is finalized with the
  -- confirmations asked for, the best block is at most fifty numbers above it, and its justification, if
  -- there is one, has enough participation. (The threshold is one that full confidence meets, and block
  -- numbers reach fifty.)
  pub wait_for_finality_live :
      (awaits : ℕ → Awaits V F) (clock : ℕ → ℕ) (k : ℕ)
      → header.number ≡ u64_to_block_number g block_ref.number
      → fl.lt (fl.decimal 1 0) config.confidence_threshold ≡ false
      → 50 ≤ g.max_number
      → ((i : ℕ) → KnowsThroughout (awaits i) block_ref.hash header)
      → ((i : ℕ) → i < k → clock i ≤ config.evaluation_timeout)
      → header.number ≤ (awaits k).at_confidence.chain.info.finalized_number
      → IsSettled g config (awaits k).at_rules block_ref.hash header
      → wait_for_finality frost config (suc k) (rounds_of awaits clock) block_ref ≡ some (ok tt)
  wait_for_finality_live awaits clock k number fair room knows in_time finalized settled =
      wait_from_yes frost config (rounds_of awaits clock) block_ref k 0 k (omega arith)
        (λ i h. (
          is_final_answers g frost config block_ref header (awaits i) number (knows i),
          in_time i h,
        ))
        (is_final_settled g frost config block_ref header (awaits k) number fair room (knows k)
          finalized settled)
