-- ===== src/Finality/Authorities/Ids.antt =====
-- The set ids of scheduled changes, over every sequence of calls of the manager.
use mathlib.Core.Path.{subst}
use frost_substrate.Prelude.{
  ◌⊎◌, ◌%◌, sym, All, All-append, ℕ, ◌+◌, ◌≤◌, ◌<◌, ◌^◌, ◌≡◌, refl, true, inl, inr, List, [], ◌∷◌,
  ◌++◌, arith, leb, Bool-cases,
}
use frost_substrate.External.Chain.{AuthorityList}
use frost_substrate.Finality.Authorities.{
  AuthoritySet, AuthoritySetChange, AuthoritySetManager, apply_change, process_pending,
  process_finalized_block, schedule_change, new_manager, current_set_id,
}

-- A call of the manager.
pub data Step : AuthoritySetManager → AuthoritySetManager → Type 0 where
  schedule :
      (a : AuthorityList) (at : ℕ) (m : AuthoritySetManager) → Step m (schedule_change a at m)
  finalize : (n : ℕ) (m : AuthoritySetManager) → Step m (process_finalized_block n m)

pub data Reach (start : AuthoritySetManager) : AuthoritySetManager → Type 0 where
  unchanged : Reach start start
  one_more : {m m' : AuthoritySetManager} → Step m m' → Reach start m → Reach start m'

-- The id after this one, on a u64.
abbrev pub next_id : ℕ → ℕ
next_id i = (i + 1) % 2 ^ 64

abbrev AreNumbered : ℕ → List AuthoritySetChange → Type 0
AreNumbered i queue = All (λ (c : AuthoritySetChange). c.set_id ≡ i) queue

-- First changes of this id, and behind them changes of the next one.
abbrev IsNumberedFrom : ℕ → List AuthoritySetChange → Type 0
IsNumberedFrom i [] = Unit
IsNumberedFrom i (c ∷ rest) =
    ((c.set_id ≡ i) × IsNumberedFrom i rest)
    ⊎ ((c.set_id ≡ next_id i) × AreNumbered (next_id i) rest)

-- The waiting changes have the id of the current set, and behind them the next one.
abbrev pub IsNumbered : AuthoritySetManager → Type 0
IsNumbered m = IsNumberedFrom (current_set_id m) m.pending_changes

IsNumberedFrom-append :
    (i : ℕ) (queue : List AuthoritySetChange) (c : AuthoritySetChange)
    → IsNumberedFrom i queue
    → c.set_id ≡ next_id i
    → IsNumberedFrom i (queue ++ c ∷ [])
IsNumberedFrom-append i [] c h e = inr (e, tt)
IsNumberedFrom-append i (d ∷ rest) c (inl (same, h)) e =
    inl (same, IsNumberedFrom-append i rest c h e)
IsNumberedFrom-append i (d ∷ rest) c (inr (next, h)) e =
    inr
      (next, All-append (λ (x : AuthoritySetChange). x.set_id ≡ next_id i) rest (c ∷ []) h (e, tt))

AreNumbered-IsNumberedFrom :
    (i : ℕ) (queue : List AuthoritySetChange) → AreNumbered i queue → IsNumberedFrom i queue
AreNumbered-IsNumberedFrom i [] h = tt
AreNumbered-IsNumberedFrom i (c ∷ rest) h = inl (h.0, AreNumbered-IsNumberedFrom i rest h.1)

-- Changes of one id bring the manager to that id.
process_pending-AreNumbered :
    (n i : ℕ) (queue : List AuthoritySetChange) (m : AuthoritySetManager)
    → current_set_id m ≡ i
    → AreNumbered i queue
    → let m' = process_pending n queue m in
      (current_set_id m' ≡ i) × AreNumbered i m'.pending_changes
unfolding process_pending
process_pending-AreNumbered n i [] m e h = (e, tt)
process_pending-AreNumbered n i (c ∷ rest) m e h = elim (Bool-cases (leb c.scheduled_at n)) [
  | inl due ↦ rw due (process_pending-AreNumbered n i rest (apply_change c m) h.0 h.1)
  | inr later ↦ rw later (e, h)
]

-- The loop stays at the id with a queue that goes on from there, or comes to the next one.
process_pending-IsNumberedFrom :
    (n i : ℕ) (queue : List AuthoritySetChange) (m : AuthoritySetManager)
    → current_set_id m ≡ i
    → IsNumberedFrom i queue
    → let m' = process_pending n queue m in
      ((current_set_id m' ≡ i) × IsNumberedFrom i m'.pending_changes)
      ⊎ ((current_set_id m' ≡ next_id i) × AreNumbered (next_id i) m'.pending_changes)
unfolding process_pending
process_pending-IsNumberedFrom n i [] m e h = inl (e, tt)
process_pending-IsNumberedFrom n i (c ∷ rest) m e (inl (same, h)) =
    elim (Bool-cases (leb c.scheduled_at n)) [
      | inl due ↦ rw due (process_pending-IsNumberedFrom n i rest (apply_change c m) same h)
      | inr later ↦ rw later (inl (e, inl (same, h)))
    ]
process_pending-IsNumberedFrom n i (c ∷ rest) m e (inr (next, h)) =
    elim (Bool-cases (leb c.scheduled_at n)) [
      | inl due ↦
          rw due (inr (process_pending-AreNumbered n (next_id i) rest (apply_change c m) next h))
      | inr later ↦ rw later (inl (e, inr (next, h)))
    ]

processed :
    (n : ℕ) (m : AuthoritySetManager)
    → IsNumbered m
    → let m' = process_finalized_block n m in
      ((current_set_id m' ≡ current_set_id m)
        × IsNumberedFrom (current_set_id m) m'.pending_changes)
      ⊎ ((current_set_id m' ≡ next_id (current_set_id m))
          × AreNumbered (next_id (current_set_id m)) m'.pending_changes)
unfolding process_finalized_block
processed n m h =
    process_pending-IsNumberedFrom n (current_set_id m) m.pending_changes
      (record m { last_finalized = n }) refl h

Step-IsNumbered : {u v : AuthoritySetManager} → Step u v → IsNumbered u → IsNumbered v
unfolding schedule_change
Step-IsNumbered (schedule a at m) h =
    IsNumberedFrom-append (current_set_id m) m.pending_changes _ h refl
Step-IsNumbered (finalize n m) h =
    let m' = process_finalized_block n m in
    elim (processed n m h) [
      | inl (same, kept) ↦ subst (λ i. IsNumberedFrom i m'.pending_changes) (sym same) kept
      | inr (next, kept) ↦
          subst (λ i. IsNumberedFrom i m'.pending_changes) (sym next)
            (AreNumbered-IsNumberedFrom _ m'.pending_changes kept)
    ]

Reach-IsNumbered :
    (s : AuthoritySet) {m : AuthoritySetManager} → Reach (new_manager s) m → IsNumbered m
unfolding new_manager
Reach-IsNumbered s unchanged = tt
Reach-IsNumbered s (one_more step r) = Step-IsNumbered step (Reach-IsNumbered s r)

-- In every state that calls of the manager reach from a new one, processing a finalized block leaves
-- the set id as it is or raises it by one (modulo 2 ^ 64), however many changes it applies.
pub set_id-process_finalized_block :
    (s : AuthoritySet) (n : ℕ) {m : AuthoritySetManager}
    → Reach (new_manager s) m
    → (current_set_id (process_finalized_block n m) ≡ current_set_id m)
      ⊎ (current_set_id (process_finalized_block n m) ≡ (current_set_id m + 1) % 2 ^ 64)
set_id-process_finalized_block s n {m} r = elim (processed n m (Reach-IsNumbered s r)) [
  | inl (same, kept) ↦ inl same
  | inr (next, kept) ↦ inr next
]

-- Two changes that are scheduled into an empty queue and come due in one block are both applied, the
-- second on top of the first, and the set id rises by one only.
pub schedule_change_twice :
    (a b : AuthorityList) (at bt n : ℕ) (m : AuthoritySetManager)
    → m.pending_changes ≡ []
    → current_set_id m + 1 < 2 ^ 64
    → at ≤ n
    → bt ≤ n
    → let m' = process_finalized_block n (schedule_change b bt (schedule_change a at m)) in
      (m'.pending_changes ≡ [])
      × (m'.current_set.authorities ≡ b)
      × (current_set_id m' ≡ current_set_id m + 1)
unfolding schedule_change process_finalized_block process_pending
schedule_change_twice a b at bt n m empty fits due_a due_b =
    let e : leb at n ≡ true = ground arith in
    let e' : leb bt n ≡ true = ground arith in rw (empty, e, e') (refl, refl, omega arith)
