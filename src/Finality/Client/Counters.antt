-- ===== src/Finality/Client/Counters.antt =====
-- src/finality/mod.rs: the two counters of signatures, which `verify_justification` counts up.
use frost_substrate.Prelude.{
  sym, ap, Bool-cases, inr, inl, Option-cases, ℕ, ◌+◌, ◌≡◌, refl, ◌∙◌, Option, none, some, List, [],
  ◌∷◌, arith, if◌then◌else◌,
}
use frost_substrate.External.Grandpa.{Grandpa, SignedPrecommit}
use frost_substrate.Finality.Client.Justification.{
  no_votes, is_signed, Tally, count_precommit, tally,
}

-- A `Lazy<Counter>`: `none` until something forces it, which registers it at zero. `Lazy::get` does not,
-- and nothing else in the file reads the two.
pub record Counters : Type 0 where
  pub signature_verifications : Option ℕ
  pub valid_signatures : Option ℕ

-- `if let Some(counter) = Lazy::get(..) { counter.increment(1); }`.
abbrev pub increment : Option ℕ → Option ℕ
increment none = none
increment (some n) = some (n + 1)

module _ {V : Type 0} (g : Grandpa V) (authority_set : V) where
  -- The metrics of one round of the loop.
  unfoldable pub count_signature : SignedPrecommit → Counters → Counters
  count_signature p c = elim (g.voter_weight authority_set p.id) [
    | none ↦ c
    | some weight ↦
        if is_signed g authority_set p
        then record {
          signature_verifications = increment c.signature_verifications;
          valid_signatures = increment c.valid_signatures;
        }
        else c
  ]

  unfoldable pub count_signatures : List SignedPrecommit → Counters → Counters
  unfolding count_signature
  count_signatures [] c = c
  count_signatures (p ∷ rest) c = count_signatures rest (count_signature p c)

-- A counter after so many increments.
abbrev pub incremented : ℕ → Option ℕ → Option ℕ
incremented n none = none
incremented n (some k) = some (k + n)

abbrev pub all_incremented : ℕ → Counters → Counters
all_incremented n c = record {
  signature_verifications = incremented n c.signature_verifications;
  valid_signatures = incremented n c.valid_signatures;
}

module _ {V : Type 0} (g : Grandpa V) (authority_set : V) where
  count_precommit-count_signature :
      (p : SignedPrecommit) (t : Tally) (n : ℕ) (c : Counters)
      → let t' = count_precommit g authority_set p t in
        (k : ℕ) × (t'.valid_signatures ≡ t.valid_signatures + k)
        × (count_signature g authority_set p (all_incremented n c) ≡ all_incremented (n + k) c)
  unfolding count_precommit count_signature
  count_precommit-count_signature p t n c =
      elim (Option-cases (g.voter_weight authority_set p.id)) [
        | inl unknown ↦ (0, ground arith, ground arith)
        | inr (w, known) ↦ elim (Bool-cases (is_signed g authority_set p)) [
          | inl signed ↦ (1, ground arith, ground arith)
          | inr unsigned ↦ (0, ground arith, ground arith)
        ]
      ]

  count_signatures-incremented :
      (votes : List SignedPrecommit) (t : Tally) (n : ℕ) (c : Counters)
      → (k : ℕ) × ((tally g authority_set votes t).valid_signatures ≡ t.valid_signatures + k)
        × (count_signatures g authority_set votes (all_incremented n c) ≡ all_incremented (n + k) c)
  unfolding tally count_signatures
  count_signatures-incremented [] t n c =
      (0, omega arith, ap (λ m. all_incremented m c) (omega arith))
  count_signatures-incremented (p ∷ rest) t n c =
      let (k, one, counted) = count_precommit-count_signature p t n c in
      let (l, others, counted') =
        count_signatures-incremented rest (count_precommit g authority_set p t) (n + k) c in
      (
        k + l,
        omega arith,
        ap (count_signatures g authority_set rest) counted
            ∙ counted'
            ∙ ap (λ m. all_incremented m c) (omega arith),
      )

  incremented_zero : (o : Option ℕ) → incremented 0 o ≡ o
  incremented_zero none = refl
  incremented_zero (some n) = ap some (omega arith)

  -- Over a justification, a counter that is registered rises by the number of valid signatures, the one
  -- named for all verifications as well as the other; a counter that nothing has registered is not
  -- registered by it, and counts nothing.
  pub count_signatures-tally :
      (votes : List SignedPrecommit) (c : Counters)
      → count_signatures g authority_set votes c ≡ record {
        signature_verifications =
            incremented
              (tally g authority_set votes no_votes).valid_signatures
              c.signature_verifications;
        valid_signatures =
            incremented (tally g authority_set votes no_votes).valid_signatures c.valid_signatures;
      }
  count_signatures-tally votes c =
      let (k, valid, counted) = count_signatures-incremented votes no_votes 0 c in
      let unchanged : all_incremented 0 c ≡ c =
        rw (incremented_zero c.signature_verifications, incremented_zero c.valid_signatures) in
      let same : 0 + k ≡ (tally g authority_set votes no_votes).valid_signatures = omega arith in
      ap (count_signatures g authority_set votes) (sym unchanged)
      ∙ counted
      ∙ ap (λ m. all_incremented m c) same
