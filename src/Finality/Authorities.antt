-- ===== src/Finality/Authorities.antt =====
-- src/finality/mod.rs: `AuthoritySet`, `AuthoritySetChange` and `AuthoritySetManager`. The gauge
-- `CURRENT_SET_VALIDATORS` is kept beside the manager as the number that was last set.
pub mod Process
pub mod Draining
pub mod Bunched
pub mod Ids
use frost_substrate.Prelude.{ℕ, ◌+◌, ◌%◌, ◌^◌, List, [], ◌∷◌, ◌++◌, length, leb, if◌then◌else◌}
use frost_substrate.External.Chain.{AuthorityList}

pub record AuthoritySet : Type 0 where
  pub authorities : AuthorityList
  pub set_id : ℕ

pub record AuthoritySetChange : Type 0 where
  pub set_id : ℕ
  pub authorities : AuthorityList
  pub scheduled_at : ℕ

pub record AuthoritySetManager : Type 0 where
  pub current_set : AuthoritySet
  pub pending_changes : List AuthoritySetChange
  pub last_finalized : ℕ
  pub validators_gauge : ℕ

abbrev pub current_authorities : AuthoritySetManager → AuthorityList
current_authorities m = m.current_set.authorities

abbrev pub current_set_id : AuthoritySetManager → ℕ
current_set_id m = m.current_set.set_id

unfoldable pub new_manager : AuthoritySet → AuthoritySetManager
new_manager initial_set = record {
  current_set = initial_set;
  pending_changes = [];
  last_finalized = 0;
  validators_gauge = length initial_set.authorities;
}

-- `set_id + 1` on a u64, in release mode.
unfoldable pub schedule_change : AuthorityList → ℕ → AuthoritySetManager → AuthoritySetManager
schedule_change new_authorities scheduled_at m =
    let next_set_id = (m.current_set.set_id + 1) % 2 ^ 64 in
    let change : AuthoritySetChange = record {
      set_id = next_set_id;
      authorities = new_authorities;
      scheduled_at = scheduled_at;
    } in
    record m { pending_changes = m.pending_changes ++ change ∷ [] }

unfoldable pub apply_change : AuthoritySetChange → AuthoritySetManager → AuthoritySetManager
apply_change change m = record m {
  current_set = record { authorities = change.authorities; set_id = change.set_id };
  validators_gauge = length change.authorities;
}

-- The `while let` loop. The second argument is what `pending_changes` holds.
unfoldable pub process_pending :
    ℕ → List AuthoritySetChange → AuthoritySetManager → AuthoritySetManager
unfolding apply_change
process_pending number [] m = record m { pending_changes = [] }
process_pending number (change ∷ rest) m =
    let applied = process_pending number rest (apply_change change m) in
    if leb change.scheduled_at number then applied else record m { pending_changes = change ∷ rest }

unfoldable pub process_finalized_block : ℕ → AuthoritySetManager → AuthoritySetManager
unfolding process_pending
process_finalized_block number m =
    process_pending number m.pending_changes (record m { last_finalized = number })
