-- ===== src/Examples/Races.antt =====
-- Two tasks that ask for the status of the same block at the same time.
use frost_substrate.Prelude.{
  ◌≡◌, if◌then◌else◌, lookup, ℕ, ◌+◌, ◌≤◌, ◌<◌, refl, true, false, leb_iff, leb, arith,
}
use frost_substrate.Examples.World.{Voters, grandpa, frost, block_hash, chain_at, client}
use frost_substrate.External.Chain.{Chain, Header}
use frost_substrate.Finality.Client.Conservative.{IsGrowing, answered_conservative}
use frost_substrate.Finality.Client.Decisions.{HasHeader}
use frost_substrate.External.Float.{Millionths, millionths_float}
use frost_substrate.Finality.Config.{from_secs}
use frost_substrate.Finality.Client.{new_client, FinalityStatus}
use frost_substrate.Finality.Client.Cache.{fresh_status, store_status}
use frost_substrate.Finality.Client.Status.{get_finality_status}
use frost_substrate.Finality.Client.Tasks.{
  resting, Tasks, asks, misses, fetches, stores, Reached, unchanged, one_more, WasRead,
}
use frost_substrate.Finality.Client.Races.{answered-WasRead}

abbrev quiet : Tasks Voters Millionths
quiet = record { now = 0; client = client; phase = λ i. resting }

-- The head goes on by a block at 3 ns.
abbrev head_moves : ℕ → Chain
head_moves t = chain_at (if leb 3 t then 21 else 20) (if leb 3 t then 13 else 12)

abbrev status_of : (confirmations : ℕ) → FinalityStatus Millionths
status_of n = record {
  block_number = 10;
  confirmations = n;
  has_justification = false;
  is_finalized = true;
  participation_rate = 0;
}

-- Both miss; task 0 reads at 2 ns, task 1 at 3 ns; task 1 stores at 4 ns, and task 0 over it at 5 ns.
abbrev race : (m : Tasks Voters Millionths) × Reached grandpa frost head_moves quiet m
unfolding get_finality_status fresh_status store_status lookup new_client
race =
    let at_1 = one_more unchanged (asks 1 0 block_hash ((leb_iff 0 1).0 refl)) in
    let both_asked = one_more at_1 (asks 1 1 block_hash ((leb_iff 1 1).0 refl)) in
    let one_missed = one_more both_asked (misses 1 0 block_hash ((leb_iff 1 1).0 refl) refl refl) in
    let both_missed =
      one_more one_missed (misses 1 1 block_hash ((leb_iff 1 1).0 refl) refl refl) in
    let at_2 =
      one_more both_missed
        (fetches 2 0 block_hash (status_of 2) ((leb_iff 1 2).0 refl) refl refl) in
    let at_3 =
      one_more at_2 (fetches 3 1 block_hash (status_of 3) ((leb_iff 2 3).0 refl) refl refl) in
    let at_4 = one_more at_3 (stores 4 1 block_hash (status_of 3) 3 ((leb_iff 3 4).0 refl) refl) in
    (_, one_more at_4 (stores 5 0 block_hash (status_of 2) 2 ((leb_iff 4 5).0 refl) refl))

answered-WasRead_example :
    (past : ℕ) × (past ≤ 5)
    × (5 < past + 3 + from_secs 5)
    × WasRead grandpa frost head_moves quiet past block_hash (status_of 2)
unfolding new_client race
answered-WasRead_example =
    answered-WasRead grandpa frost head_moves quiet race.0 3 refl (λ i. refl) race.1
      (((((((((tt, tt), tt), tt), tt), tt), tt), (leb_iff 4 6).0 refl)), (leb_iff 5 5).0 refl) 0 5
      block_hash (status_of 2) refl

head_moves-IsGrowing : IsGrowing head_moves
head_moves-IsGrowing = record {
  finalized = λ t u le. ground arith;
  kept = λ t u hash header le found below. found;
}

answered_conservative_example :
    (header : Header) × HasHeader (head_moves 5) block_hash header
    × (10 ≡ header.number)
    × (header.number + 2 ≤ (head_moves 5).info.finalized_number)
unfolding new_client race
answered_conservative_example =
    answered_conservative grandpa frost head_moves quiet race.0 head_moves-IsGrowing refl
      (λ i. refl) race.1 0 5 block_hash (status_of 2) refl refl
