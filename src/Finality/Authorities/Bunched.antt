-- ===== src/Finality/Authorities/Bunched.antt =====
-- Changes that are scheduled one after another before any of them is applied.
use frost_substrate.Prelude.{
  ℕ, ◌+◌, ◌%◌, ◌^◌, ◌≤◌, ◌≡◌, refl, sym, ap, ◌∙◌, List, [], ◌∷◌, ◌++◌, map, append_assoc,
  append-nil, All,
}
use frost_substrate.External.Chain.{AuthorityList}
use frost_substrate.Finality.Authorities.{
  AuthoritySet, AuthoritySetChange, AuthoritySetManager, current_set_id, schedule_change,
  process_finalized_block,
}
use frost_substrate.Finality.Authorities.Process.{IsDue, last_set}
use frost_substrate.Finality.Authorities.Draining.{process_finalized_block_drains}

-- Each change is a list of authorities with the block it is scheduled for.
unfoldable pub schedule_all : List (AuthorityList × ℕ) → AuthoritySetManager → AuthoritySetManager
schedule_all [] m = m
schedule_all (c ∷ rest) m = schedule_all rest (schedule_change c.0 c.1 m)

abbrev next_set_id : AuthoritySetManager → ℕ
next_set_id m = (current_set_id m + 1) % 2 ^ 64

abbrev numbered : ℕ → AuthorityList × ℕ → AuthoritySetChange
numbered id c = record { set_id = id; authorities = c.0; scheduled_at = c.1 }

abbrev pub last_of : {A : Type 0} → A → List A → A
last_of a [] = a
last_of a (b ∷ rest) = last_of b rest

-- All changes get the id after that of the current set.
schedule_all-numbered :
    (changes : List (AuthorityList × ℕ)) (m : AuthoritySetManager)
    → schedule_all changes m
      ≡ record m { pending_changes = m.pending_changes ++ map (numbered (next_set_id m)) changes }
unfolding schedule_all schedule_change
schedule_all-numbered [] m =
    ap (λ q. record m { pending_changes = q }) (sym (append-nil m.pending_changes))
schedule_all-numbered (c ∷ rest) m =
    schedule_all-numbered rest (schedule_change c.0 c.1 m)
    ∙ ap (λ q. record m { pending_changes = q })
        (append_assoc m.pending_changes (numbered (next_set_id m) c ∷ [])
          (map (numbered (next_set_id m)) rest))

last_set-numbered :
    (id : ℕ) (c : AuthorityList × ℕ) (rest : List (AuthorityList × ℕ)) (s : AuthoritySet)
    → last_set s (map (numbered id) (c ∷ rest))
      ≡ record { authorities = (last_of c rest).0; set_id = id }
last_set-numbered id c [] s = refl
last_set-numbered id c (d ∷ rest) s =
    last_set-numbered id d rest (record { authorities = c.0; set_id = id })

numbered-IsDue :
    (id n : ℕ) (changes : List (AuthorityList × ℕ))
    → All (λ c. c.1 ≤ n) changes
    → All (IsDue n) (map (numbered id) changes)
numbered-IsDue id n [] h = tt
numbered-IsDue id n (c ∷ rest) h = (h.0, numbered-IsDue id n rest h.1)

-- However many changes are scheduled into an empty queue, if all of them come due in one block, then none
-- is left, the last one gives the authorities, and the set id rises by one only (modulo 2 ^ 64): all of
-- them bear the same id.
pub schedule_all-process_finalized_block :
    (c : AuthorityList × ℕ) (rest : List (AuthorityList × ℕ)) (n : ℕ) (m : AuthoritySetManager)
    → m.pending_changes ≡ []
    → All (λ d. d.1 ≤ n) (c ∷ rest)
    → let m' = process_finalized_block n (schedule_all (c ∷ rest) m) in
      (m'.pending_changes ≡ [])
      × (m'.current_set
          ≡ record { authorities = (last_of c rest).0; set_id = (current_set_id m + 1) % 2 ^ 64 })
schedule_all-process_finalized_block c rest n m empty due =
    let scheduled = schedule_all (c ∷ rest) m in
    let whole = schedule_all-numbered (c ∷ rest) m in
    let queue : scheduled.pending_changes ≡ map (numbered (next_set_id m)) (c ∷ rest) =
      ap (λ (x : AuthoritySetManager). x.pending_changes) whole
      ∙ ap (λ q. q ++ map (numbered (next_set_id m)) (c ∷ rest)) empty in
    let all_due : All (IsDue n) scheduled.pending_changes =
      rw queue (numbered-IsDue (next_set_id m) n (c ∷ rest) due) in
    let (left, current) = process_finalized_block_drains n scheduled all_due in
    (
      left,
      current
          ∙ ap (last_set scheduled.current_set) queue
          ∙ last_set-numbered (next_set_id m) c rest scheduled.current_set,
    )
