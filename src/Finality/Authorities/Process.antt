-- ===== src/Finality/Authorities/Process.antt =====
-- What `process_finalized_block` does to the queue of scheduled changes.
use frost_substrate.Prelude.{
  ℕ, true, false, ◌≤◌, ◌<◌, ◌≡◌, refl, ap, inl, inr, List, [], ◌∷◌, ◌++◌, arith, All, length, leb,
  Bool-cases, if◌then◌else◌,
}
use frost_substrate.External.Chain.{AuthorityList}
use frost_substrate.Finality.Authorities.{
  AuthoritySet, AuthoritySetChange, AuthoritySetManager, apply_change, process_pending,
  process_finalized_block, schedule_change, new_manager,
}

abbrev pub IsDue : ℕ → AuthoritySetChange → Type 0
IsDue n c = c.scheduled_at ≤ n

-- Nothing is left at the front of the queue that is due.
abbrev pub IsBlocked : ℕ → List AuthoritySetChange → Type 0
IsBlocked n [] = Unit
IsBlocked n (c ∷ rest) = n < c.scheduled_at

-- The set after the given changes, one after another.
abbrev pub last_set : AuthoritySet → List AuthoritySetChange → AuthoritySet
last_set s [] = s
last_set s (c ∷ rest) = last_set (record { authorities = c.authorities; set_id = c.set_id }) rest

-- The gauge shows the size of the current set.
abbrev pub IsGauged : AuthoritySetManager → Type 0
IsGauged m = m.validators_gauge ≡ length m.current_set.authorities

abbrev IsSortedFrom : ℕ → List AuthoritySetChange → Type 0
IsSortedFrom n [] = Unit
IsSortedFrom n (c ∷ rest) = (n ≤ c.scheduled_at) × IsSortedFrom c.scheduled_at rest

-- The changes stand in the order of their blocks.
abbrev pub IsSorted : List AuthoritySetChange → Type 0
IsSorted = IsSortedFrom 0

abbrev pub due : ℕ → List AuthoritySetChange → List AuthoritySetChange
due n [] = []
due n (c ∷ rest) = if leb c.scheduled_at n then c ∷ due n rest else due n rest

abbrev pub later : ℕ → List AuthoritySetChange → List AuthoritySetChange
later n [] = []
later n (c ∷ rest) = if leb c.scheduled_at n then later n rest else c ∷ later n rest

-- What processing a block leaves behind: a front part of the queue is applied in order, all of it due,
-- and what is left begins with a change that is not due.
pub record Processed (n : ℕ) (m m' : AuthoritySetManager) : Type 0 where
  pub applied : List AuthoritySetChange
  pub split : m.pending_changes ≡ applied ++ m'.pending_changes
  pub all_due : All (IsDue n) applied
  pub blocked : IsBlocked n m'.pending_changes
  pub current : m'.current_set ≡ last_set m.current_set applied
  pub finalized : m'.last_finalized ≡ n

process_pending-Processed :
    (n : ℕ) (queue : List AuthoritySetChange) (m : AuthoritySetManager)
    → Processed n
        (record m { pending_changes = queue })
        (process_pending n queue (record m { last_finalized = n }))
unfolding process_pending
process_pending-Processed n [] m = record {
  applied = [];
  split = refl;
  all_due = tt;
  blocked = tt;
  current = refl;
  finalized = refl;
}
process_pending-Processed n (c ∷ rest) m = elim (Bool-cases (leb c.scheduled_at n)) [
  | inl h ↦ rw h (
      let ih = process_pending-Processed n rest (apply_change c m) in
      record {
        applied = c ∷ ih.applied;
        split = ap (◌∷◌ c) ih.split;
        all_due = (ground arith, ih.all_due);
        blocked = ih.blocked;
        current = ih.current;
        finalized = ih.finalized;
      })
  | inr h ↦ rw h (record {
    applied = [];
    split = refl;
    all_due = tt;
    blocked = ground arith;
    current = refl;
    finalized = refl;
  })
]

-- Processing a finalized block applies a front part of the queue, in its order: every applied change
-- is due, the change that then stands first is not, the current set is that of the last applied
-- change (or the old one), and the block is recorded as the last finalized one.
pub process_finalized_block-Processed :
    (n : ℕ) (m : AuthoritySetManager) → Processed n m (process_finalized_block n m)
unfolding process_finalized_block
process_finalized_block-Processed n m = process_pending-Processed n m.pending_changes m

due_sorted :
    (n k : ℕ) (queue : List AuthoritySetChange)
    → IsSortedFrom k queue
    → n < k
    → (due n queue ≡ []) × (later n queue ≡ queue)
due_sorted n k [] s h = (refl, refl)
due_sorted n k (c ∷ rest) s h = ground (arith, due_sorted n c.scheduled_at rest s.1)

process_pending_sorted :
    (n k : ℕ) (queue : List AuthoritySetChange) (m : AuthoritySetManager)
    → IsSortedFrom k queue
    → let m' = process_pending n queue m in
      (m'.pending_changes ≡ later n queue) × (m'.current_set ≡ last_set m.current_set (due n queue))
unfolding process_pending
process_pending_sorted n k [] m s = (refl, refl)
process_pending_sorted n k (c ∷ rest) m s = elim (Bool-cases (leb c.scheduled_at n)) [
  | inl h ↦ rw h (process_pending_sorted n c.scheduled_at rest (apply_change c m) s.1)
  | inr h ↦
      let behind = due_sorted n c.scheduled_at rest s.1 (ground arith) in
      rw (h, behind.0, behind.1) (refl, refl)
]

-- If the queue is in the order of the blocks, processing a block applies every change that is due and
-- keeps every other one: the current set is that of the last due change (or the old one).
pub process_finalized_block_sorted :
    (n : ℕ) (m : AuthoritySetManager)
    → IsSorted m.pending_changes
    → let m' = process_finalized_block n m in
      (m'.pending_changes ≡ later n m.pending_changes)
      × (m'.current_set ≡ last_set m.current_set (due n m.pending_changes))
unfolding process_finalized_block
process_finalized_block_sorted n m s =
    process_pending_sorted n 0 m.pending_changes (record m { last_finalized = n }) s

-- The loop reads the queue from its argument alone.
process_pending_queue :
    (n : ℕ) (queue other : List AuthoritySetChange) (m : AuthoritySetManager)
    → process_pending n queue (record m { pending_changes = other }) ≡ process_pending n queue m
unfolding process_pending
process_pending_queue n [] other m = refl
process_pending_queue n (c ∷ rest) other m = elim (Bool-cases (leb c.scheduled_at n)) [
  | inl e ↦ rw e (process_pending_queue n rest other (apply_change c m))
  | inr e ↦ rw e
]

process_pending_twice :
    (k n : ℕ) (queue : List AuthoritySetChange) (m : AuthoritySetManager)
    → k ≤ n
    → process_finalized_block n (process_pending k queue m)
      ≡ process_pending n queue (record m { last_finalized = n })
unfolding process_pending process_finalized_block
process_pending_twice k n [] m h = refl
process_pending_twice k n (c ∷ rest) m h = elim (Bool-cases (leb c.scheduled_at k)) [
  | inl e ↦
      let e' : leb c.scheduled_at n ≡ true = ground arith in
      rw (e, e') (process_pending_twice k n rest (apply_change c m) h)
  | inr e ↦ rw e (process_pending_queue n (c ∷ rest) (c ∷ rest) (record m { last_finalized = n }))
]

-- Blocks may be skipped: processing an earlier block first makes no difference to what a later one
-- leaves behind, so only the highest finalized block counts.
pub process_finalized_block_skip :
    (k n : ℕ) (m : AuthoritySetManager)
    → k ≤ n
    → process_finalized_block n (process_finalized_block k m) ≡ process_finalized_block n m
unfolding process_finalized_block
process_finalized_block_skip k n m h =
    process_pending_twice k n m.pending_changes (record m { last_finalized = k }) h

-- A change at the front that is not due blocks the changes behind it, due or not: the block number is
-- all that processing then changes.
pub process_finalized_block_blocked :
    (n : ℕ) (c : AuthoritySetChange) (rest : List AuthoritySetChange) (m : AuthoritySetManager)
    → m.pending_changes ≡ c ∷ rest
    → n < c.scheduled_at
    → process_finalized_block n m ≡ record m { last_finalized = n }
unfolding process_finalized_block process_pending
process_finalized_block_blocked n c rest m e h =
    let late : leb c.scheduled_at n ≡ false = ground arith in ground arith

process_pending-IsGauged :
    (n : ℕ) (queue : List AuthoritySetChange) (m : AuthoritySetManager)
    → IsGauged m
    → IsGauged (process_pending n queue m)
unfolding process_pending
process_pending-IsGauged n [] m h = h
process_pending-IsGauged n (c ∷ rest) m h = elim (Bool-cases (leb c.scheduled_at n)) [
  | inl e ↦ rw e (process_pending-IsGauged n rest (apply_change c m) refl)
  | inr e ↦ rw e h
]

-- The gauge shows the size of the current authority set in a new manager, and keeps doing so when a
-- change is scheduled and when a finalized block is processed.
pub every_call-IsGauged :
    (s : AuthoritySet)
    → IsGauged (new_manager s)
      × ((a : AuthorityList) (at : ℕ) (m : AuthoritySetManager)
          → IsGauged m
          → IsGauged (schedule_change a at m))
      × ((n : ℕ) (m : AuthoritySetManager) → IsGauged m → IsGauged (process_finalized_block n m))
unfolding new_manager schedule_change process_finalized_block
every_call-IsGauged s = (
  refl,
  λ a at m h. h,
  λ n m h. process_pending-IsGauged n m.pending_changes (record m { last_finalized = n }) h,
)
