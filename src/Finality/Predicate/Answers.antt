-- ===== src/Finality/Predicate/Answers.antt =====
-- What `is_final` answers while the chain knows the block, and when it answers yes.
use frost_substrate.Prelude.{
  ◌+◌, ◌-◌, ◌≤◌, ◌≡◌, refl, ap, ◌∙◌, true, false, Bool, Option, List, Bytes, leb, leb_iff, arith,
  Bool-cases, inl, inr, ok,
}
use frost_substrate.External.Chain.{Header, Chain, Hash}
use frost_substrate.External.Float.{Float}
use frost_substrate.External.Frost.{ChainRules, Frost, BlockRef, PredicateConfig}
use frost_substrate.External.Grandpa.{Grandpa}
use frost_substrate.Finality.Client.{SubstrateVerificationClient, FinalityStatus}
use frost_substrate.Finality.Client.Confidence.{
  confidence_of, rules_hold, get_finality_confidence, verify_chain_rules,
}
use frost_substrate.Finality.Client.Decisions.{
  HasHeader, get_finality_status_iff, verify_block_hash_iff,
}
use frost_substrate.Finality.Client.Queries.{u64_to_block_number}
use frost_substrate.Finality.Client.Status.{
  is_some, grandpa_justification, justified_rate, get_finality_status,
}
use frost_substrate.Finality.Predicate.{Moments, grandpa_rules, is_final}
use frost_substrate.Finality.Predicate.Soundness.{Snapshot, moments, is_final_iff}

-- The chain has the block, and answers for its justifications.
pub record Knows (chain : Chain) (hash : Hash) (header : Header) : Type 0 where
  pub found : HasHeader chain hash header
  pub justifications : Option (List (Bytes × Bytes))
  pub justified : chain.justifications hash ≡ ok justifications

module _ {V F : Type 0} ⦃fl : Float F⦄ (g : Grandpa V) where
  abbrev pub status_of :
      Chain
      → SubstrateVerificationClient V F
      → Header
      → Option (List (Bytes × Bytes))
      → FinalityStatus F
  status_of chain client header justifications = record {
    block_number = header.number;
    confirmations = chain.info.finalized_number - header.number;
    has_justification = is_some (grandpa_justification g justifications);
    is_finalized = leb header.number chain.info.finalized_number;
    participation_rate = justified_rate g client (grandpa_justification g justifications);
  }

  -- A chain that knows the block, has finalized it with the confirmations asked for, and has a best
  -- block at most fifty above it. A justification, if there is one, has enough participation.
  pub record IsSettled (config : PredicateConfig F) (s : Snapshot V F) (hash : Hash)
      (header : Header) : Type 0 where
    pub knows : Knows s.chain hash header
    pub confirmed : header.number + config.min_confirmations ≤ s.chain.info.finalized_number
    pub shallow : s.chain.info.best_number ≤ header.number + 50
    pub participated :
        is_some (grandpa_justification g knows.justifications) ≡ true
        → fl.lt
            (justified_rate g s.client (grandpa_justification g knows.justifications))
            (fl.decimal 67 2)
          ≡ false

-- The client and the chain at the three awaits of a round.
pub record Awaits (V F : Type 0) : Type 0 where
  pub at_hash : Snapshot V F
  pub at_confidence : Snapshot V F
  pub at_rules : Snapshot V F

-- A round in which each await knows the block.
pub record KnowsThroughout {V F : Type 0} (w : Awaits V F) (hash : Hash) (header : Header)
    : Type 0 where
  pub at_hash : HasHeader w.at_hash.chain hash header
  pub at_confidence : Knows w.at_confidence.chain hash header
  pub at_rules : Knows w.at_rules.chain hash header

module _ {C V F : Type 0} ⦃fl : Float F⦄ (g : Grandpa V) (frost : Frost C) where
  abbrev pub answers : Awaits V F → Moments C F
  answers w = moments g frost w.at_hash w.at_confidence w.at_rules

  get_finality_status-Knows :
      (s : Snapshot V F) (hash : Hash) (header : Header) (k : Knows s.chain hash header)
      → get_finality_status g frost s.chain s.client hash
        ≡ ok (status_of g s.chain s.client header k.justifications)
  get_finality_status-Knows s hash header k =
      (get_finality_status_iff g frost s.chain s.client hash _).1 (record {
        header = header;
        found = k.found;
        justifications = k.justifications;
        justified = k.justified;
        status_eq = refl;
      })

module _ {C V F : Type 0} ⦃fl : Float F⦄ (g : Grandpa V) (frost : Frost C)
    (config : PredicateConfig F) (block_ref : BlockRef C) (header : Header) where
  pub is_final_settled :
      (w : Awaits V F)
      → header.number ≡ u64_to_block_number g block_ref.number
      → fl.lt (fl.decimal 1 0) config.confidence_threshold ≡ false
      → 50 ≤ g.max_number
      → KnowsThroughout w block_ref.hash header
      → header.number ≤ w.at_confidence.chain.info.finalized_number
      → IsSettled g config w.at_rules block_ref.hash header
      → is_final frost config (answers g frost w) block_ref ≡ ok true
  unfolding confidence_of
  is_final_settled w number fair room knows finalized settled =
      let b = w.at_confidence in
      let c = w.at_rules in
      let k = knows.at_confidence in
      let seen = status_of g b.chain b.client header k.justifications in
      let ruled = status_of g c.chain c.client header settled.knows.justifications in
      let certain : confidence_of b.client.params seen ≡ fl.decimal 1 0 =
        rw ((leb_iff header.number b.chain.info.finalized_number).1 finalized) in
      let confirmed = settled.confirmed in
      let shallow = settled.shallow in
      (is_final_iff g frost config w.at_hash b c block_ref).1 (record {
        header = header;
        found = knows.at_hash;
        number = number;
        seen = seen;
        seen_status =
            (get_finality_status_iff g frost b.chain b.client block_ref.hash seen).0
              (get_finality_status-Knows g frost b block_ref.hash header k);
        confident = ap (λ x. fl.lt x config.confidence_threshold) certain ∙ fair;
        ruled = ruled;
        ruled_status =
            (get_finality_status_iff g frost c.chain c.client block_ref.hash ruled).0
              (get_finality_status-Knows g frost c block_ref.hash header settled.knows);
        follows = record {
          confirmed = omega arith;
          shallow = omega arith;
          participated = settled.participated;
        };
      })

  get_finality_confidence-Knows :
      (s : Snapshot V F) (k : Knows s.chain block_ref.hash header)
      → get_finality_confidence g frost s.chain s.client block_ref
        ≡ ok (confidence_of s.client.params (status_of g s.chain s.client header k.justifications))
  unfolding get_finality_confidence
  get_finality_confidence-Knows s k =
      rw (get_finality_status-Knows g frost s block_ref.hash header k)

  verify_chain_rules-Knows :
      (s : Snapshot V F) (k : Knows s.chain block_ref.hash header) (rules : ChainRules F)
      → verify_chain_rules g frost s.chain s.client block_ref rules
        ≡ ok (rules_hold g s.chain rules (status_of g s.chain s.client header k.justifications))
  unfolding verify_chain_rules
  verify_chain_rules-Knows s k rules =
      rw (get_finality_status-Knows g frost s block_ref.hash header k)

  -- A round that knows the block under its number answers, yes or no.
  pub is_final_answers :
      (w : Awaits V F)
      → header.number ≡ u64_to_block_number g block_ref.number
      → KnowsThroughout w block_ref.hash header
      → (b : Bool) × (is_final frost config (answers g frost w) block_ref ≡ ok b)
  unfolding is_final
  is_final_answers w number knows =
      let there =
        (verify_block_hash_iff g frost w.at_hash.chain block_ref).1
          (header, knows.at_hash, number) in
      let confident = get_finality_confidence-Knows w.at_confidence knows.at_confidence in
      let ruled = verify_chain_rules-Knows w.at_rules knows.at_rules (grandpa_rules frost config) in
      let s = w.at_confidence in
      let seen = status_of g s.chain s.client header knows.at_confidence.justifications in
      let r = w.at_rules in
      let ruled_status = status_of g r.chain r.client header knows.at_rules.justifications in
      rw (there, confident, ruled)
        (elim (Bool-cases
          (fl.lt (confidence_of w.at_confidence.client.params seen) config.confidence_threshold)) [
            | inl low ↦ (false, rw low)
            | inr high ↦ (rules_hold g r.chain (grandpa_rules frost config) ruled_status, rw high)
          ])
