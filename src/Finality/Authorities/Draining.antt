-- ===== src/Finality/Authorities/Draining.antt =====
-- What is left of the queue in the long run, and that notifications can be missed.
use frost_substrate.Prelude.{
  ℕ, ◌≤◌, ◌≡◌, refl, sym, ap, ◌∙◌, List, [], ◌∷◌, ◌++◌, append-nil, All, arith,
}
use frost_substrate.Finality.Authorities.{
  AuthoritySetChange, AuthoritySetManager, process_finalized_block,
}
use frost_substrate.Finality.Authorities.Process.{
  IsDue, IsBlocked, process_finalized_block-Processed, process_finalized_block_skip, last_set,
}

none_left :
    (n : ℕ) (applied left : List AuthoritySetChange)
    → All (IsDue n) (applied ++ left)
    → IsBlocked n left
    → left ≡ []
none_left n [] [] due blocked = refl
none_left n [] (c ∷ rest) due blocked = absurd (omega (arith, due.0))
none_left n (a ∷ applied) left due blocked = none_left n applied left due.1 blocked

-- No change waits for ever: once a finalized block is at or above the blocks of all waiting changes, in
-- whatever order they wait, none is left, and the current set is that of the last of them (or the old one).
pub process_finalized_block_drains :
    (n : ℕ) (m : AuthoritySetManager)
    → All (IsDue n) m.pending_changes
    → let m' = process_finalized_block n m in
      (m'.pending_changes ≡ []) × (m'.current_set ≡ last_set m.current_set m.pending_changes)
process_finalized_block_drains n m due =
    let i = process_finalized_block-Processed n m in
    let left = (process_finalized_block n m).pending_changes in
    let empty = none_left n i.applied left (rw i.split at due) i.blocked in
    let all : m.pending_changes ≡ i.applied =
      i.split ∙ ap (λ (l : List AuthoritySetChange). i.applied ++ l) empty ∙ append-nil i.applied in
    (empty, i.current ∙ ap (last_set m.current_set) (sym all))

-- One finalized block after another.
unfoldable pub process_blocks : List ℕ → AuthoritySetManager → AuthoritySetManager
process_blocks [] m = m
process_blocks (n ∷ rest) m = process_blocks rest (process_finalized_block n m)

-- Only the highest finalized block counts: whichever blocks at or below it are processed before it, in
-- whatever order, once or more than once or not at all, the manager ends in the same state.
pub process_finalized_block-process_blocks :
    (n : ℕ) (before : List ℕ) (m : AuthoritySetManager)
    → All (λ k. k ≤ n) before
    → process_finalized_block n (process_blocks before m) ≡ process_finalized_block n m
unfolding process_blocks
process_finalized_block-process_blocks n [] m below = refl
process_finalized_block-process_blocks n (k ∷ rest) m below =
    process_finalized_block-process_blocks n rest (process_finalized_block k m) below.1
    ∙ process_finalized_block_skip k n m below.0
