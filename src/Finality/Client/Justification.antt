-- ===== src/Finality/Client/Justification.antt =====
-- src/finality/mod.rs: `verify_justification`.
use frost_substrate.Prelude.{
  ℕ, ◌+◌, ◌-◌, ◌^◌, min, Bool, none, some, List, [], ◌∷◌, Result, ok, ltb, if◌then◌else◌,
}
use frost_substrate.External.Float.{Float}
use frost_substrate.External.Grandpa.{Grandpa, SignedPrecommit, Justification}
use frost_substrate.Finality.Client.{SubstrateVerificationClient}
use frost_substrate.Finality.Errors.{GrandpaFinalityVerificationError}

abbrev pub u64_max : ℕ
u64_max = 2 ^ 64 - 1

-- `u64::saturating_add`.
abbrev pub saturating_add : ℕ → ℕ → ℕ
saturating_add a b = min (a + b) u64_max

-- The two sums of the loop.
pub record Tally : Type 0 where
  pub signed_weight : ℕ
  pub valid_signatures : ℕ

abbrev pub no_votes : Tally
no_votes = record { signed_weight = 0; valid_signatures = 0 }

module _ {V : Type 0} (g : Grandpa V) (authority_set : V) where
  abbrev pub is_signed : SignedPrecommit → Bool
  is_signed p = g.verify p.signature (g.encode_precommit p.precommit) p.id

  -- The body of the loop, without its metrics.
  unfoldable pub count_precommit : SignedPrecommit → Tally → Tally
  count_precommit p t = elim (g.voter_weight authority_set p.id) [
    | none ↦ t
    | some weight ↦
        if is_signed p
        then record {
          signed_weight = saturating_add t.signed_weight weight;
          valid_signatures = t.valid_signatures + 1;
        }
        else t
  ]

  unfoldable pub tally : List SignedPrecommit → Tally → Tally
  unfolding count_precommit
  tally [] t = t
  tally (p ∷ rest) t = tally rest (count_precommit p t)

module _ {V F : Type 0} ⦃fl : Float F⦄ (g : Grandpa V) where
  unfoldable pub participation_of : V → ℕ → F
  participation_of authority_set signed_weight =
      let total_weight = g.total_weight authority_set in
      if ltb 0 total_weight
      then fl.div (fl.of_u64 signed_weight) (fl.of_u64 total_weight)
      else fl.decimal 0 0

  unfoldable pub verify_justification :
      SubstrateVerificationClient V F
      → Justification
      → Result GrandpaFinalityVerificationError (Bool × F)
  unfolding tally participation_of
  verify_justification client justification =
      let authority_set = client.voter_set in
      let votes = tally g authority_set justification.precommits no_votes in
      let participation_rate = participation_of authority_set votes.signed_weight in
      ok (fl.le client.params.min_participation participation_rate, participation_rate)
