-- ===== src/Examples/Forks.antt =====
-- A chain with two blocks of number 10, of which GRANDPA can have finalized one only.
use frost_substrate.Prelude.{
  ℕ, ◌≡◌, ◌↔◌, refl, true, none, some, bytes_eq, replicate, if◌then◌else◌, ok,
}
use frost_substrate.Examples.World.{
  Voters, grandpa, frost, client, chain_at, block, block_hash, block_ref, config_asking,
}
use frost_substrate.External.Chain.{Hash, Header}
use frost_substrate.External.Float.{Millionths, millionths_float}
use frost_substrate.External.Frost.{BlockRef}
use frost_substrate.Finality.Predicate.{is_final}
use frost_substrate.Finality.Predicate.Forks.{IsForked, is_final_fork}
use frost_substrate.Finality.Predicate.Soundness.{Snapshot, moments}

abbrev fork_hash : Hash
fork_hash = replicate 32 7

abbrev fork_block : Header
fork_block = record block { hash = fork_hash }

abbrev fork_ref : BlockRef ℕ
fork_ref = record block_ref { hash = fork_hash }

abbrev forked : Snapshot Voters Millionths
forked = record {
  chain = record (chain_at 20 12) {
    header = λ h.
        if bytes_eq h block_hash
        then ok (some block)
        else if bytes_eq h fork_hash
        then ok (some fork_block)
        else ok none;
  };
  client = client;
}

abbrev forked-IsForked : IsForked grandpa forked block_hash fork_hash
forked-IsForked = record {
  header = block;
  header' = fork_block;
  found = refl;
  found' = refl;
  level = refl;
  plain = refl;
  plain' = refl;
}

is_final_fork_example :
    (is_final frost (config_asking 2) (moments grandpa frost forked forked forked) block_ref
      ≡ ok true)
    ↔ (is_final frost (config_asking 2) (moments grandpa frost forked forked forked) fork_ref
        ≡ ok true)
is_final_fork_example =
    is_final_fork grandpa frost (config_asking 2) forked forked forked block_ref fork_ref
      forked-IsForked forked-IsForked forked-IsForked refl
