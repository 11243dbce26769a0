-- ===== src/Examples/Clients.antt =====
-- A client over time: its counters, its head and a wait that succeeds in its third round.
use frost_substrate.Finality.Client.Repeats.{verify_justification_repeated}
use frost_substrate.Prelude.{
  replicate, ℕ, ◌+◌, ◌≡◌, refl, true, some, none, [], ◌∷◌, arith, ok, leb_iff,
}
use mathlib.Core.List.{Permᴰ}
use mathlib.Core.Quot
use frost_substrate.Examples.World.{
  Voters, alice, bob, vote, two_voters, grandpa, frost, block_hash, block, chain_at, client,
  snapshot, block_ref, config_asking,
}
use frost_substrate.External.Float.{Millionths, millionths_float}
use frost_substrate.External.Frost.{BlockRef}
use frost_substrate.Finality.Config.{chain_config_default}
use frost_substrate.Finality.Client.{new_client}
use frost_substrate.Finality.Client.Ballots.{ballot_weight, ballot, verify_justification-ballot}
use frost_substrate.Finality.Client.Counters.{Counters, count_signatures, count_signatures-tally}
use frost_substrate.Finality.Client.Head.{get_chain_head-verify_block_hash}
use frost_substrate.Finality.Client.Justification.{tally, participation_of, verify_justification}
use frost_substrate.Finality.Client.Queries.{get_chain_head, get_block, verify_block_hash}
use frost_substrate.Finality.Predicate.{wait_for_finality}
use frost_substrate.Finality.Predicate.Answers.{Awaits, Knows, KnowsThroughout, IsSettled}
use frost_substrate.Finality.Predicate.Liveness.{rounds_of, wait_for_finality_live}

-- Block 10 becomes the last finalized block in round 0, and has its two confirmations in round 2.
abbrev awaits : ℕ → Awaits Voters Millionths
awaits i = record {
  at_hash = snapshot 20 (10 + i);
  at_confidence = snapshot 20 (10 + i);
  at_rules = snapshot 20 (10 + i);
}

abbrev clock : ℕ → ℕ
clock i = i

knows_block : (n : ℕ) → Knows (chain_at 20 n) block_hash block
knows_block n = record { found = refl; justifications = none; justified = refl }

knows_throughout : (i : ℕ) → KnowsThroughout (awaits i) block_hash block
knows_throughout i = record {
  at_hash = refl;
  at_confidence = knows_block (10 + i);
  at_rules = knows_block (10 + i);
}

settled : IsSettled grandpa (config_asking 2) (snapshot 20 12) block_hash block
unfolding knows_block
settled = record {
  knows = knows_block 12;
  confirmed = (leb_iff 12 12).0 refl;
  shallow = (leb_iff 20 60).0 refl;
  participated = λ h. absurd (cc);
}

wait_for_finality_live_example :
    wait_for_finality frost
      (config_asking 2)
      3
      (rounds_of grandpa frost (config_asking 2) block_ref block awaits clock)
      block_ref
    ≡ some (ok tt)
wait_for_finality_live_example =
    wait_for_finality_live grandpa frost (config_asking 2) block_ref block awaits clock 2 refl refl
      ((leb_iff 50 grandpa.max_number).0 refl) knows_throughout (λ i h. omega arith)
      ((leb_iff 10 12).0 refl) settled

-- A ballot of two votes, read in the other order.
verify_justification-ballot_example :
    verify_justification grandpa client (record { precommits = vote alice ∷ vote bob ∷ [] })
    ≡ ok (true, 1_000_000)
unfolding new_client participation_of ballot_weight
verify_justification-ballot_example =
    verify_justification-ballot grandpa client (record { precommits = vote alice ∷ vote bob ∷ [] })
      (ballot (vote bob ∷ vote alice ∷ [])) (Quot.sound (Permᴰ.swap refl refl))

abbrev counters : Counters
counters = record { signature_verifications = some 4; valid_signatures = none }

count_signatures-tally_example :
    count_signatures grandpa two_voters (vote alice ∷ vote [] ∷ vote bob ∷ []) counters
    ≡ record { signature_verifications = some 6; valid_signatures = none }
unfolding tally
count_signatures-tally_example =
    count_signatures-tally grandpa two_voters (vote alice ∷ vote [] ∷ vote bob ∷ []) counters

abbrev head : BlockRef ℕ
head = record block_ref { chain_id = 1 }

get_chain_head-verify_block_hash_example :
    (head ≡ record { hash = block_hash; number = 10; chain_id = 1 })
    × (verify_block_hash grandpa frost (chain_at 10 8) head ≡ ok true)
    × (get_block frost (chain_at 10 8) head ≡ ok (record { hash = block_hash; number = 10 }))
unfolding get_chain_head
get_chain_head-verify_block_hash_example =
    get_chain_head-verify_block_hash grandpa frost (chain_at 10 8) chain_config_default head block
      refl refl refl ((leb_iff 10 _).0 refl) ((leb_iff 10 _).0 refl)

-- Seven times the weight of the one is five times that of the other.
verify_justification_repeated_example :
    verify_justification grandpa client (record { precommits = replicate 7 (vote alice) })
    ≡ verify_justification grandpa client (record { precommits = replicate 5 (vote bob) })
unfolding new_client
verify_justification_repeated_example =
    verify_justification_repeated grandpa client (vote alice) 7 (replicate 5 (vote bob)) refl
