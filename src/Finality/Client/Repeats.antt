-- ===== src/Finality/Client/Repeats.antt =====
-- Votes that one voter repeats.
use frost_substrate.Prelude.{ℕ, ◌*◌, ◌≡◌, sym, ap, ◌∙◌, replicate, min, List, ok}
use frost_substrate.External.Float.{Float}
use frost_substrate.External.Grandpa.{Grandpa, SignedPrecommit}
use frost_substrate.Finality.Client.{SubstrateVerificationClient}
use frost_substrate.Finality.Client.Justification.{u64_max, participation_of, verify_justification}
use frost_substrate.Finality.Client.Weights.{
  weight_of, weight_of_votes, signed_weight-tally, signed_weight_repeated,
}

-- One voter can pass for all: a justification that repeats one vote, whatever block that is for, gets the
-- answer that any other votes get which weigh as much together.
pub verify_justification_repeated :
    {V F : Type 0} ⦃fl : Float F⦄ (g : Grandpa V) (client : SubstrateVerificationClient V F)
    (p : SignedPrecommit) (n : ℕ) (votes : List SignedPrecommit)
    → n * weight_of g client.voter_set p ≡ weight_of_votes g client.voter_set votes
    → verify_justification g client (record { precommits = replicate n p })
      ≡ verify_justification g client (record { precommits = votes })
unfolding verify_justification
verify_justification_repeated ⦃fl⦄ g client p n votes same =
    let weight =
      signed_weight_repeated g client.voter_set n p
      ∙ ap (λ w. min w u64_max) same
      ∙ sym (signed_weight-tally g client.voter_set votes) in
    let rate = participation_of g client.voter_set in
    ap (λ w. ok (fl.le client.params.min_participation (rate w), rate w)) weight
