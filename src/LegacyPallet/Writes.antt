-- ===== src/LegacyPallet/Writes.antt =====
-- What one write leaves of a sound storage.
use frost_substrate.Prelude.{
  ◌∙◌, Option, none, ◌≡◌, refl, ◌≤◌, inl, inr, some, List, [], ◌∷◌, ◌++◌, Bytes, lookup, insert,
  lookup-insert_cases, lookup-insert_kept, lookup-insert_here, sym, All, All-append,
}
use frost_substrate.External.Frost.{BlockRef, ProofType}
use frost_substrate.External.State.{StateTransition}
use frost_substrate.LegacyPallet.{
  LegacyPallet, LegacyEvent, update_latest_block, transition_recorded, legacy_proof_generated,
  message_verified, state_finalized,
}
use frost_substrate.LegacyPallet.Storage.{Meaning, IsTold, last_told, IsSound}

module _ {C P M : Type 0} where
  -- The second storage has every key of the first.
  pub record Keeps (p p' : LegacyPallet C P M) : Type 0 where
    pub transitions :
        (h : Bytes)
        → ((t : StateTransition C) × (lookup h p.transitions ≡ some t))
        → (t : StateTransition C) × (lookup h p'.transitions ≡ some t)
    pub proofs :
        (h : Bytes)
        → ((q : P) × (lookup h p.proofs ≡ some q))
        → (q : P) × (lookup h p'.proofs ≡ some q)
    pub messages :
        (h : Bytes)
        → ((m : M) × (lookup h p.messages ≡ some m))
        → (m : M) × (lookup h p'.messages ≡ some m)

  IsTold-kept :
      (p p' : LegacyPallet C P M)
      → Keeps p p'
      → (events : List (LegacyEvent C)) → All (IsTold p) events
      → All (IsTold p') events
  IsTold-kept p p' k [] told = tt
  IsTold-kept p p' k (transition_recorded h ∷ rest) told =
      (k.transitions h told.0, IsTold-kept p p' k rest told.1)
  IsTold-kept p p' k (legacy_proof_generated h t ∷ rest) told =
      (k.proofs h told.0, IsTold-kept p p' k rest told.1)
  IsTold-kept p p' k (message_verified h ∷ rest) told =
      (k.messages h told.0, IsTold-kept p p' k rest told.1)
  IsTold-kept p p' k (state_finalized b ∷ rest) told = (tt, IsTold-kept p p' k rest told.1)

  IsTold-more :
      (p p' : LegacyPallet C P M) (e : LegacyEvent C)
      → Keeps p p'
      → IsTold p' e
      → All (IsTold p) p.events
      → All (IsTold p') (p.events ++ e ∷ [])
  IsTold-more p p' e k new old =
      All-append (IsTold p') p.events (e ∷ []) (IsTold-kept p p' k p.events old) (new, tt)

last_told-append :
    {C : Type 0} (b : Option (BlockRef C)) (events : List (LegacyEvent C)) (e : LegacyEvent C)
    → last_told b (events ++ e ∷ []) ≡ last_told (last_told b events) (e ∷ [])
last_told-append b [] e = refl
last_told-append b (state_finalized c ∷ rest) e = last_told-append (some c) rest e
last_told-append b (transition_recorded h ∷ rest) e = last_told-append b rest e
last_told-append b (legacy_proof_generated h t ∷ rest) e = last_told-append b rest e
last_told-append b (message_verified h ∷ rest) e = last_told-append b rest e

module _ {C P M : Type 0} (meaning : Meaning C P M) where
  -- The storage after each of the three insertions.
  unfoldable pub with_transition :
      (t : StateTransition C) (p : LegacyPallet C P M) → LegacyPallet C P M
  with_transition t p =
      let h = meaning.hashing.hash_transition t in
      record p {
        transitions = insert h t p.transitions;
        events = p.events ++ transition_recorded h ∷ [];
      }

  unfoldable pub with_proof :
      (h : Bytes) (t : ProofType) (q : P) (p : LegacyPallet C P M) → LegacyPallet C P M
  with_proof h t q p = record p {
    proofs = insert h q p.proofs;
    events = p.events ++ legacy_proof_generated h t ∷ [];
  }

  unfoldable pub with_message : (m : M) (p : LegacyPallet C P M) → LegacyPallet C P M
  with_message m p =
      let h = meaning.hashing.hash_message m in
      record p { messages = insert h m p.messages; events = p.events ++ message_verified h ∷ [] }

  pub with_transition-IsSound :
      (t : StateTransition C) (p : LegacyPallet C P M)
      → meaning.is_valid t
      → meaning.was_final t.pre_state.block_ref
      → IsSound meaning p
      → IsSound meaning (with_transition t p)
  unfolding with_transition
  with_transition-IsSound t p valid final s =
      let h = meaning.hashing.hash_transition t in
      let keeps : Keeps p (with_transition t p) = record {
        transitions = λ j. lookup-insert_kept h j t p.transitions;
        proofs = λ h x. x;
        messages = λ h x. x;
      } in
      record {
        transitions = λ j x found. elim (lookup-insert_cases h j t x p.transitions found) [
          | inl (key, value) ↦ rw (sym key, sym value) (refl, valid, final)
          | inr old ↦ s.transitions j x old
        ];
        proofs = λ j q found. ((s.proofs j q found).0, keeps.transitions j (s.proofs j q found).1);
        messages = s.messages;
        events =
            IsTold-more p (with_transition t p) (transition_recorded h) keeps
              (t, lookup-insert_here h t p.transitions) s.events;
        latest = s.latest ∙ sym (last_told-append none p.events (transition_recorded h));
      }

  pub with_proof-IsSound :
      (h : Bytes) (t : ProofType) (q : P) (p : LegacyPallet C P M)
      → ((x : StateTransition C) × (lookup h p.transitions ≡ some x))
      → meaning.encoded_size q ≤ meaning.limit
      → IsSound meaning p
      → IsSound meaning (with_proof h t q p)
  unfolding with_proof
  with_proof-IsSound h t q p there small s =
      let keeps : Keeps p (with_proof h t q p) = record {
        transitions = λ h x. x;
        proofs = λ j. lookup-insert_kept h j q p.proofs;
        messages = λ h x. x;
      } in
      record {
        transitions = s.transitions;
        proofs = λ j x found. elim (lookup-insert_cases h j q x p.proofs found) [
          | inl (key, value) ↦ rw (sym key, sym value) (small, there)
          | inr old ↦ s.proofs j x old
        ];
        messages = s.messages;
        events =
            IsTold-more p (with_proof h t q p) (legacy_proof_generated h t) keeps
              (q, lookup-insert_here h q p.proofs) s.events;
        latest = s.latest ∙ sym (last_told-append none p.events (legacy_proof_generated h t));
      }

  pub with_message-IsSound :
      (m : M) (p : LegacyPallet C P M)
      → meaning.was_verified (meaning.message_proof m)
      → IsSound meaning p
      → IsSound meaning (with_message m p)
  unfolding with_message
  with_message-IsSound m p verified s =
      let h = meaning.hashing.hash_message m in
      let keeps : Keeps p (with_message m p) = record {
        transitions = λ h x. x;
        proofs = λ h x. x;
        messages = λ j. lookup-insert_kept h j m p.messages;
      } in
      record {
        transitions = s.transitions;
        proofs = s.proofs;
        messages = λ j x found. elim (lookup-insert_cases h j m x p.messages found) [
          | inl (key, value) ↦ rw (sym key, sym value) (refl, verified)
          | inr old ↦ s.messages j x old
        ];
        events =
            IsTold-more p (with_message m p) (message_verified h) keeps
              (m, lookup-insert_here h m p.messages) s.events;
        latest = s.latest ∙ sym (last_told-append none p.events (message_verified h));
      }

  pub update_latest_block-IsSound :
      (b : BlockRef C) (p : LegacyPallet C P M)
      → IsSound meaning p
      → IsSound meaning (update_latest_block b p)
  unfolding update_latest_block
  update_latest_block-IsSound b p s =
      let keeps : Keeps p (update_latest_block b p) = record {
        transitions = λ h x. x;
        proofs = λ h x. x;
        messages = λ h x. x;
      } in
      record {
        transitions = s.transitions;
        proofs = s.proofs;
        messages = s.messages;
        events = IsTold-more p (update_latest_block b p) (state_finalized b) keeps tt s.events;
        latest = sym (last_told-append none p.events (state_finalized b));
      }
