-- ===== src/Examples/Authorities.antt =====
-- Calls of an authority set manager with two scheduled changes.
use frost_substrate.Prelude.{◌⊎◌, ◌%◌, ◌^◌, ◌-◌, ◌+◌, ◌≡◌, refl, leb_iff, [], ◌∷◌}
use frost_substrate.Examples.World.{alice, bob}
use frost_substrate.External.Chain.{AuthorityList}
use frost_substrate.Finality.Authorities.{
  current_set_id, AuthoritySet, AuthoritySetManager, new_manager, schedule_change,
  process_finalized_block,
}
use frost_substrate.Finality.Authorities.Process.{
  Processed, process_finalized_block-Processed, last_set,
}
use frost_substrate.Finality.Authorities.Bunched.{
  schedule_all, schedule_all-process_finalized_block,
}
use frost_substrate.Finality.Authorities.Draining.{
  process_finalized_block_drains, process_blocks, process_finalized_block-process_blocks,
}
use frost_substrate.Finality.Authorities.Ids.{
  Reach, schedule, unchanged, one_more, set_id-process_finalized_block,
}

abbrev first : AuthorityList
first = (alice, 5) ∷ []

abbrev second : AuthorityList
second = (bob, 7) ∷ (alice, 5) ∷ []

abbrev set : AuthoritySet
set = record { authorities = first; set_id = 3 }

abbrev new_one : AuthoritySetManager
new_one = new_manager set

abbrev waiting : AuthoritySetManager
waiting = schedule_change first 8 (schedule_change second 5 new_one)

process_finalized_block-Processed_example : Processed 6 waiting (process_finalized_block 6 waiting)
process_finalized_block-Processed_example = process_finalized_block-Processed 6 waiting

process_finalized_block-process_blocks_example :
    process_finalized_block 9 (process_blocks (6 ∷ 4 ∷ 6 ∷ []) waiting)
    ≡ process_finalized_block 9 waiting
process_finalized_block-process_blocks_example =
    process_finalized_block-process_blocks 9 (6 ∷ 4 ∷ 6 ∷ []) waiting
      ((leb_iff 6 9).0 refl, ((leb_iff 4 9).0 refl, ((leb_iff 6 9).0 refl, tt)))

-- The last id of a u64, with a change that waits.
abbrev last_one : AuthoritySetManager
last_one = new_manager (record { authorities = first; set_id = 2 ^ 64 - 1 })

abbrev reached : Reach last_one (schedule_change second 5 last_one)
reached = one_more (schedule second 5 last_one) unchanged

set_id-process_finalized_block_example :
    (current_set_id (process_finalized_block 6 (schedule_change second 5 last_one))
      ≡ current_set_id (schedule_change second 5 last_one))
    ⊎ (current_set_id (process_finalized_block 6 (schedule_change second 5 last_one))
        ≡ (current_set_id (schedule_change second 5 last_one) + 1) % 2 ^ 64)
set_id-process_finalized_block_example =
    set_id-process_finalized_block (record { authorities = first; set_id = 2 ^ 64 - 1 }) 6 reached

process_finalized_block_drains_example :
    ((process_finalized_block 9 waiting).pending_changes ≡ [])
    × ((process_finalized_block 9 waiting).current_set
        ≡ last_set waiting.current_set waiting.pending_changes)
unfolding schedule_change new_manager
process_finalized_block_drains_example =
    process_finalized_block_drains 9 waiting ((leb_iff 5 9).0 refl, ((leb_iff 8 9).0 refl, tt))

schedule_all-process_finalized_block_example :
    let m' = process_finalized_block 9 (schedule_all ((first, 5) ∷ (second, 8) ∷ []) new_one) in
    (m'.pending_changes ≡ []) × (m'.current_set ≡ record { authorities = second; set_id = 4 })
unfolding new_manager
schedule_all-process_finalized_block_example =
    schedule_all-process_finalized_block (first, 5) ((second, 8) ∷ []) 9 new_one refl
      ((leb_iff 5 9).0 refl, ((leb_iff 8 9).0 refl, tt))
