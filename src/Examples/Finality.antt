-- ===== src/Examples/Finality.antt =====
-- Block 10, its status, its votes and what the predicate says of it.
use frost_substrate.Prelude.{
  lookup, false, bytes_eq_iff, arith, ◌≢◌, min, ◌+◌, ℕ, ◌*◌, ◌≤◌, ◌<◌, ◌≡◌, ◌↔◌, refl, ltb_iff,
  true, some, [], ◌∷◌, ok,
}
use frost_substrate.Examples.World.{
  block_hash, Voters, alice, bob, vote, two_voters, grandpa, grandpa-IsVoterSets, frost, block,
  chain_at, client, snapshot, block_ref, config_asking,
}
use frost_substrate.External.Chain.{Header}
use frost_substrate.External.Float.{Millionths-IsFloat, Millionths, millionths_float}
use frost_substrate.Finality.Client.Queries.{
  u64_to_block_number, verify_block_hash, verify_block_inclusion,
}
use frost_substrate.Finality.Client.Confidence.{get_finality_confidence, verify_chain_rules}
use frost_substrate.Finality.Client.Status.{get_finality_status}
use frost_substrate.Finality.Client.Cache.{get_finality_status_cached, fresh_status}
use frost_substrate.Finality.Client.CacheLaws.{get_finality_status_cached_again}
use frost_substrate.Finality.Client.Decisions.{HasHeader, verify_block_inclusion_iff}
use frost_substrate.Finality.Client.{FinalityStatus, new_client}
use frost_substrate.Finality.Client.Justification.{tally, no_votes}
use frost_substrate.Finality.Build.{GrandpaFinality, substrate}
use frost_substrate.Finality.Build.Changes.{run_changes, last_voter_set, run_changes-last_voter_set}
use frost_substrate.Finality.Predicate.{Round, is_final, wait_for_finality}
use frost_substrate.Finality.Predicate.Soundness.{
  moments, IsAccepted, is_final_iff, is_final_sound, is_final_stale, is_final_pending,
}
use frost_substrate.Finality.Predicate.Waiting.{Ended, wait_for_finality_ends}
use frost_substrate.Finality.Client.Weights.{signed_weight-le-total_weight, weight_of_votes}

is_final_iff_example :
    (is_final frost
        (config_asking 2)
        (moments grandpa frost (snapshot 20 12) (snapshot 20 12) (snapshot 20 12))
        block_ref
      ≡ ok true)
    ↔ IsAccepted grandpa frost
        (config_asking 2)
        (snapshot 20 12)
        (snapshot 20 12)
        (snapshot 20 12)
        block_ref
is_final_iff_example =
    is_final_iff grandpa frost (config_asking 2) (snapshot 20 12) (snapshot 20 12) (snapshot 20 12)
      block_ref

accepted :
    is_final frost
      (config_asking 2)
      (moments grandpa frost (snapshot 20 12) (snapshot 20 12) (snapshot 20 12))
      block_ref
    ≡ ok true
unfolding is_final verify_block_hash get_finality_confidence get_finality_status verify_chain_rules
accepted = refl

is_final_sound_example :
    (header : Header) × HasHeader (chain_at 20 12) block_ref.hash header
    × (header.number + min 2 grandpa.max_number ≤ 12)
    × (20 ≤ header.number + 50)
is_final_sound_example =
    is_final_sound grandpa frost (config_asking 2) (snapshot 20 12) (snapshot 20 12)
      (snapshot 20 12) block_ref ((ltb_iff 0 2).0 refl) ((ltb_iff 0 _).0 refl) accepted

is_final_stale_example :
    is_final frost
      (config_asking 2)
      (moments grandpa frost (snapshot 20 12) (snapshot 20 12) (snapshot 61 60))
      block_ref
    ≢ ok true
is_final_stale_example =
    is_final_stale grandpa frost (config_asking 2) (snapshot 20 12) (snapshot 20 12)
      (snapshot 61 60) block_ref block refl ((ltb_iff 60 61).0 refl)

-- Block 10 stays open; each round sleeps for two seconds.
abbrev open_rounds : ℕ → Round frost (config_asking 2)
open_rounds i = record {
  moments = moments grandpa frost (snapshot 20 9) (snapshot 20 9) (snapshot 20 9);
  elapsed = 2_000_000_000 * (i + 1);
}

wait_for_finality_ends_example :
    (m : ℕ) × (r : _) × (m ≤ 5)
    × (wait_for_finality frost (config_asking 2) 6 open_rounds block_ref ≡ some r)
    × Ended frost (config_asking 2) open_rounds block_ref m r
wait_for_finality_ends_example =
    wait_for_finality_ends frost (config_asking 2) open_rounds block_ref 5 ((ltb_iff _ _).0 refl)

verify_block_inclusion_iff_example :
    (verify_block_inclusion grandpa frost (chain_at 20 12) (chain_at 21 12) block_ref (1 ∷ [])
      ≡ ok true)
    ↔ ((a b : Header) × HasHeader (chain_at 20 12) block_ref.hash a
        × (a.number ≡ u64_to_block_number grandpa block_ref.number)
        × HasHeader (chain_at 21 12) block_ref.hash b
        × (0 < 1))
verify_block_inclusion_iff_example =
    verify_block_inclusion_iff grandpa frost (chain_at 20 12) (chain_at 21 12) block_ref (1 ∷ [])

signed_weight-le-total_weight_example :
    ((tally grandpa two_voters (vote alice ∷ vote bob ∷ []) no_votes).signed_weight ≤ 12)
    × ((tally grandpa two_voters (vote alice ∷ vote bob ∷ []) no_votes).signed_weight
        ≡ weight_of_votes grandpa two_voters (vote alice ∷ vote bob ∷ []))
signed_weight-le-total_weight_example =
    signed_weight-le-total_weight grandpa two_voters grandpa-IsVoterSets
      (vote alice ∷ vote bob ∷ []) (λ k. grind (arith, bytes_eq_iff alice k, bytes_eq_iff bob k))

abbrev finality : GrandpaFinality Voters Millionths
finality = record {
  config = config_asking 2;
  verification_client = substrate client;
  voter_set = two_voters;
}

run_changes-last_voter_set_example :
    run_changes grandpa (((bob, 7) ∷ [], 4) ∷ ([], 5) ∷ []) finality ≡ record finality {
      verification_client = substrate (record client {
        voter_set = last_voter_set grandpa (((bob, 7) ∷ [], 4) ∷ ([], 5) ∷ []) two_voters;
      });
    }
unfolding new_client
run_changes-last_voter_set_example =
    run_changes-last_voter_set grandpa (((bob, 7) ∷ [], 4) ∷ ([], 5) ∷ []) client finality refl

is_final_pending_example :
    is_final frost
      (config_asking 2)
      (moments grandpa frost (snapshot 20 12) (snapshot 20 9) (snapshot 20 12))
      block_ref
    ≢ ok true
is_final_pending_example =
    is_final_pending grandpa frost (config_asking 2) (snapshot 20 12) (snapshot 20 9)
      (snapshot 20 12) block_ref Millionths-IsFloat refl block refl ((ltb_iff 9 10).0 refl)

abbrev open_status : FinalityStatus Millionths
open_status = record {
  block_number = 10;
  confirmations = 2;
  has_justification = false;
  is_finalized = true;
  participation_rate = 0;
}

get_finality_status_cached_again_example :
    let (r, client') =
      get_finality_status_cached grandpa frost (chain_at 20 12) 7 block_hash client in
    (r ≡ ok open_status)
    × (get_finality_status_cached grandpa frost (chain_at 30 25) (7 + 100) block_hash client'
        ≡ (ok open_status, client'))
unfolding fresh_status get_finality_status lookup new_client
get_finality_status_cached_again_example =
    get_finality_status_cached_again grandpa frost (chain_at 20 12) (chain_at 30 25) 7 100
      block_hash client open_status refl refl ((ltb_iff 100 _).0 refl)
