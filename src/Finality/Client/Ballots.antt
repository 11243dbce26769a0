-- ===== src/Finality/Client/Ballots.antt =====
-- What a justification says does not depend on the order of its votes.
use frost_substrate.Prelude.{ltb, if◌then◌else◌, sym, ℕ, ◌≡◌, refl, ap, ◌∙◌, min, List, ok, arith}
use mathlib.Core.List.{Permᴰ}
use mathlib.Core.Quot
use mathlib.Core.Quot.{Quot}
use native.Mathlib.Nat.{ℕ_set}
use frost_substrate.External.Float.{Float}
use frost_substrate.External.Grandpa.{Grandpa, SignedPrecommit, Justification}
use frost_substrate.Finality.Client.{SubstrateVerificationClient}
use frost_substrate.Finality.Client.Justification.{u64_max, participation_of, verify_justification}
use frost_substrate.Finality.Client.Weights.{weight_of, weight_of_votes, signed_weight-tally}

-- Votes with their order forgotten.
abbrev pub Ballot : Type 0
Ballot = Quot (Permᴰ {A = SignedPrecommit})

abbrev pub ballot : List SignedPrecommit → Ballot
ballot = Quot.mk

module _ {V : Type 0} (g : Grandpa V) (authority_set : V) where
  pub weight_of_votes-Permᴰ :
      {xs ys : List SignedPrecommit}
      → Permᴰ xs ys
      → weight_of_votes g authority_set xs ≡ weight_of_votes g authority_set ys
  weight_of_votes-Permᴰ Permᴰ.nil = refl
  weight_of_votes-Permᴰ (Permᴰ.cons e p) =
      omega (arith, ap (weight_of g authority_set) e, weight_of_votes-Permᴰ p)
  weight_of_votes-Permᴰ (Permᴰ.swap e e') =
      omega (arith, ap (weight_of g authority_set) e, ap (weight_of g authority_set) e')
  weight_of_votes-Permᴰ (Permᴰ.trans p q) = weight_of_votes-Permᴰ p ∙ weight_of_votes-Permᴰ q

  -- The weight of a ballot: the sum over its votes, each as often as it was cast.
  unfoldable pub ballot_weight : Ballot → ℕ
  ballot_weight =
      Quot.lift ℕ_set (weight_of_votes g authority_set) (λ xs ys p. weight_of_votes-Permᴰ p)

module _ {V F : Type 0} ⦃fl : Float F⦄ (g : Grandpa V) where
  -- The rule that the verification is to follow: the rate is what the ballot weighs, up to the greatest
  -- u64, over the weight of all voters, or zero if they weigh nothing.
  abbrev pub participation : SubstrateVerificationClient V F → Ballot → F
  participation client b =
      let all = g.total_weight client.voter_set in
      if ltb 0 all
      then fl.div (fl.of_u64 (min (ballot_weight g client.voter_set b) u64_max)) (fl.of_u64 all)
      else fl.decimal 0 0

  -- The verification of a justification implements the rule on its ballot: the rate is the weight of the
  -- votes over that of all voters, the answer is whether it reaches the least rate, and neither the loop
  -- nor the order of the votes shows in them.
  pub verify_justification-ballot :
      (client : SubstrateVerificationClient V F) (j : Justification) (b : Ballot)
      → ballot j.precommits ≡ b
      → verify_justification g client j
        ≡ ok
            (fl.le client.params.min_participation (participation client b), participation client b)
  unfolding verify_justification participation_of ballot_weight
  verify_justification-ballot client j b e =
      rw (sym e, signed_weight-tally g client.voter_set j.precommits)
