-- ===== src/Finality/Predicate/Soundness.antt =====
-- What it means that `is_final` answers yes, with the client of this repository behind it.
use frost_substrate.Prelude.{
  ◌∙◌, ap, ◌+◌, ◌≤◌, ◌<◌, ◌≡◌, refl, ap, ◌≢◌, ◌↔◌, true, false, inl, inr, min, leb, arith, ok,
  map_err, >>=-eq-ok, map_err-eq-ok, Bool-cases,
}
use frost_substrate.External.Chain.{Header, Chain}
use frost_substrate.External.Float.{Float, IsFloat}
use frost_substrate.External.Frost.{Frost, BlockRef, PredicateConfig}
use frost_substrate.External.Grandpa.{Grandpa}
use frost_substrate.Finality.Client.{SubstrateVerificationClient, FinalityStatus}
use frost_substrate.Finality.Client.Queries.{u64_to_block_number, verify_block_hash}
use frost_substrate.Finality.Client.Confidence.{
  weighted_confidence, confidence_of, get_finality_confidence,
}
use frost_substrate.Finality.Client.Decisions.{
  HasHeader, IsStatus, FollowsRules, verify_block_hash_iff, get_finality_confidence_iff,
  verify_chain_rules_iff,
}
use frost_substrate.Finality.Predicate.{Moments, substrate_client, grandpa_rules, is_final}

-- The client and the chain at one await.
pub record Snapshot (V F : Type 0) : Type 0 where
  pub chain : Chain
  pub client : SubstrateVerificationClient V F

module _ {C V F : Type 0} ⦃fl : Float F⦄ (g : Grandpa V) (frost : Frost C) where
  abbrev pub moments : (a b c : Snapshot V F) → Moments C F
  moments a b c = record {
    at_hash = substrate_client g frost a.chain a.client;
    at_confidence = substrate_client g frost b.chain b.client;
    at_rules = substrate_client g frost c.chain c.client;
  }

module _ {C V F : Type 0} ⦃fl : Float F⦄ (g : Grandpa V) (frost : Frost C)
    (config : PredicateConfig F) where
  -- What the three awaits have to find.
  pub record IsAccepted (a b c : Snapshot V F) (block_ref : BlockRef C) : Type 0 where
    pub header : Header
    pub found : HasHeader a.chain block_ref.hash header
    pub number : header.number ≡ u64_to_block_number g block_ref.number
    pub seen : FinalityStatus F
    pub seen_status : IsStatus g b.chain b.client block_ref.hash seen
    pub confident : fl.lt (confidence_of b.client.params seen) config.confidence_threshold ≡ false
    pub ruled : FinalityStatus F
    pub ruled_status : IsStatus g c.chain c.client block_ref.hash ruled
    pub follows : FollowsRules g c.chain (grandpa_rules frost config) ruled

module _ {C V F : Type 0} ⦃fl : Float F⦄ (g : Grandpa V) (frost : Frost C)
    (config : PredicateConfig F) (a b c : Snapshot V F) (block_ref : BlockRef C) where
  is_final-IsAccepted :
      is_final frost config (moments g frost a b c) block_ref ≡ ok true
      → IsAccepted g frost config a b c block_ref
  unfolding is_final
  is_final-IsAccepted e =
      let (there, checked, e1) =
        >>=-eq-ok (map_err _ (verify_block_hash g frost a.chain block_ref)) _ e in
      elim (Bool-cases there) [
        | inl t ↦
            let (header, found, number) =
              (verify_block_hash_iff g frost a.chain block_ref).0
                (map_err-eq-ok _ _ (rw t at checked)) in
            let (x, weighed, e2) =
              >>=-eq-ok (map_err _ (get_finality_confidence g frost b.chain b.client block_ref)) _
                (rw t at e1) in
            let (seen, seen_status, x_eq) =
              (get_finality_confidence_iff g frost b.chain b.client block_ref x).0
                (map_err-eq-ok _ _ weighed) in
            elim (Bool-cases (fl.lt x config.confidence_threshold)) [
              | inl low ↦ cc (rw low at e2)
              | inr high ↦
                  let (ruled, ruled_status, follows) =
                    (verify_chain_rules_iff g frost c.chain c.client block_ref
                        (grandpa_rules frost config)).0
                      (map_err-eq-ok _ _ (rw high at e2)) in
                  record {
                    header = header;
                    found = found;
                    number = number;
                    seen = seen;
                    seen_status = seen_status;
                    confident = rw x_eq at high;
                    ruled = ruled;
                    ruled_status = ruled_status;
                    follows = follows;
                  }
            ]
        | inr t ↦ cc (rw t at e1)
      ]

  IsAccepted-is_final :
      IsAccepted g frost config a b c block_ref
      → is_final frost config (moments g frost a b c) block_ref ≡ ok true
  unfolding is_final
  IsAccepted-is_final i = rw (
    (verify_block_hash_iff g frost a.chain block_ref).1 (i.header, i.found, i.number),
    (get_finality_confidence_iff g frost b.chain b.client block_ref
          (confidence_of b.client.params i.seen)).1
        (i.seen, i.seen_status, refl),
    i.confident,
    (verify_chain_rules_iff g frost c.chain c.client block_ref (grandpa_rules frost config)).1
        (i.ruled, i.ruled_status, i.follows),
  )

  -- `is_final` says yes exactly when its first await finds the block under its number, its second one
  -- reads a status whose confidence is not below the threshold, and its third one reads a status that
  -- follows the GRANDPA rules, whatever the chain did in between.
  pub is_final_iff :
      (is_final frost config (moments g frost a b c) block_ref ≡ ok true)
      ↔ IsAccepted g frost config a b c block_ref
  is_final_iff = (is_final-IsAccepted, IsAccepted-is_final)

  -- A yes means finality: with at least one confirmation asked for, the chain has the block, GRANDPA
  -- has finalized a block that many numbers above it (as far as block numbers reach), and the best
  -- block is at most fifty numbers above it.
  pub is_final_sound :
      0 < config.min_confirmations
      → 0 < g.max_number
      → is_final frost config (moments g frost a b c) block_ref ≡ ok true
      → (header : Header) × HasHeader c.chain block_ref.hash header
        × (header.number + min config.min_confirmations g.max_number
            ≤ c.chain.info.finalized_number)
        × (c.chain.info.best_number ≤ header.number + 50)
  is_final_sound asked room e =
      let i = is_final-IsAccepted e in
      let s = i.ruled_status in
      let confirmed = i.follows.confirmed in
      let shallow = i.follows.shallow in
      let counted = ap (λ (r : FinalityStatus F). r.confirmations) s.status_eq in
      let numbered = ap (λ (r : FinalityStatus F). r.block_number) s.status_eq in
      (s.header, s.found, omega arith, omega arith)

  -- Finality wears off: once the best block is more than fifty numbers above a block, `is_final` does
  -- not say yes to it, however finalized it is.
  pub is_final_stale :
      (header : Header)
      → HasHeader c.chain block_ref.hash header
      → header.number + 50 < c.chain.info.best_number
      → is_final frost config (moments g frost a b c) block_ref ≢ ok true
  is_final_stale header found old e =
      let i = is_final-IsAccepted e in
      let s = i.ruled_status in
      let shallow = i.follows.shallow in
      let numbered = ap (λ (r : FinalityStatus F). r.block_number) s.status_eq in
      let same : s.header ≡ header = cc (s.found, found) in
      absurd (omega (arith, ap (λ (h : Header). h.number) same))

  -- With more than fifty confirmations asked for (and block numbers that reach so far), `is_final` says
  -- yes to no block at all, if the best block is never below the finalized one.
  pub is_final_never :
      50 < config.min_confirmations
      → 50 < g.max_number
      → c.chain.info.finalized_number ≤ c.chain.info.best_number
      → is_final frost config (moments g frost a b c) block_ref ≢ ok true
  is_final_never many room ordered e =
      let (header, found, confirmed, shallow) = is_final_sound (omega arith) (omega arith) e in
      absurd (omega arith)

  -- A block that is above the finalized one when its confidence is read is not accepted under a
  -- threshold above 0.95, whatever its justification.
  pub is_final_pending :
      IsFloat F
      → fl.lt (fl.decimal 95 2) config.confidence_threshold ≡ true
      → (header : Header) → HasHeader b.chain block_ref.hash header
      → b.chain.info.finalized_number < header.number
      → is_final frost config (moments g frost a b c) block_ref ≢ ok true
  unfolding confidence_of
  is_final_pending laws strict header found pending e =
      let i = is_final-IsAccepted e in
      let s = i.seen_status in
      let same : s.header ≡ header = cc (s.found, found) in
      let finalized = ap (λ (r : FinalityStatus F). r.is_finalized) s.status_eq in
      let above : b.chain.info.finalized_number < s.header.number = rw same pending in
      let later : leb s.header.number b.chain.info.finalized_number ≡ false = ground arith in
      let open_block : i.seen.is_finalized ≡ false = finalized ∙ later in
      let low =
        laws.min_lt (weighted_confidence b.client.params i.seen) (fl.decimal 95 2) _ strict in
      cc (low, rw (confidence_of, open_block) at i.confident)
