-- ===== src/Finality/Client/Decisions.antt =====
-- When the queries of `SubstrateVerificationClient` answer yes, in terms of the chain.
use frost_substrate.Prelude.{
  inr, inl, Bool-cases, ◌<◌, true, ◌≤◌, false, ◌-◌, ◌≡◌, ◌↔◌, Option, some, List, Bytes, leb, arith,
  ok, map_err, >>=-eq-ok, map_err-eq-ok,
}
use frost_substrate.External.Chain.{Hash, Header, Chain}
use frost_substrate.External.Float.{Float}
use frost_substrate.External.Frost.{ChainRules, BlockRef, Frost}
use frost_substrate.External.Grandpa.{Grandpa}
use frost_substrate.Finality.Client.{length, SubstrateVerificationClient, FinalityStatus}
use frost_substrate.Finality.Client.Queries.{
  u64_to_block_number, verify_block_hash, verify_block_inclusion,
}
use frost_substrate.Finality.Client.Confidence.{
  confidence_of, get_finality_confidence, rules_hold, verify_chain_rules,
}
use frost_substrate.Finality.Client.Status.{
  is_some, grandpa_justification, require_header, justified_rate, get_finality_status,
}

-- The chain has a block of this hash, with this header.
abbrev pub HasHeader : Chain → Hash → Header → Type 0
HasHeader chain hash header = chain.header hash ≡ ok (some header)

module _ {C : Type 0} (frost : Frost C) (chain : Chain) (hash : Hash) (header : Header) where
  pub require_header_iff :
      (require_header frost chain hash ≡ ok header) ↔ HasHeader chain hash header
  unfolding require_header
  require_header_iff = ground arith

module _ {V F : Type 0} ⦃fl : Float F⦄ (g : Grandpa V) (chain : Chain) where
  -- `s` says of the block what the chain says of it.
  pub record IsStatus (client : SubstrateVerificationClient V F) (hash : Hash)
      (s : FinalityStatus F) : Type 0 where
    pub header : Header
    pub found : HasHeader chain hash header
    pub justifications : Option (List (Bytes × Bytes))
    pub justified : chain.justifications hash ≡ ok justifications
    pub status_eq : s ≡ record {
      block_number = header.number;
      confirmations = chain.info.finalized_number - header.number;
      has_justification = is_some (grandpa_justification g justifications);
      is_finalized = leb header.number chain.info.finalized_number;
      participation_rate = justified_rate g client (grandpa_justification g justifications);
    }

module _ {C V F : Type 0} ⦃fl : Float F⦄ (g : Grandpa V) (frost : Frost C) (chain : Chain) where
  -- A status is returned exactly when the chain has the block and answers for its justifications, and
  -- it is then what the chain says of the block.
  pub get_finality_status_iff :
      (client : SubstrateVerificationClient V F) (hash : Hash) (s : FinalityStatus F)
      → (get_finality_status g frost chain client hash ≡ ok s) ↔ IsStatus g chain client hash s
  unfolding get_finality_status
  get_finality_status_iff client hash s = (
    λ e.
        let (header, found, e') = >>=-eq-ok (require_header frost chain hash) _ e in
        let (js, justified, e'') = >>=-eq-ok (map_err _ (chain.justifications hash)) _ e' in
        record {
          header = header;
          found = (require_header_iff frost chain hash header).0 found;
          justifications = js;
          justified = map_err-eq-ok _ _ justified;
          status_eq = cc;
        },
    λ i.
        rw ((require_header_iff frost chain hash i.header).1 i.found, i.justified)
          (cc (i.status_eq)),
  )

  pub get_finality_confidence_iff :
      (client : SubstrateVerificationClient V F) (block_ref : BlockRef C) (c : F)
      → (get_finality_confidence g frost chain client block_ref ≡ ok c) ↔ (
          (s : FinalityStatus F) × IsStatus g chain client block_ref.hash s
          × (c ≡ confidence_of client.params s))
  unfolding get_finality_confidence
  get_finality_confidence_iff client block_ref c = (
    λ e.
        let (s, found, e') =
          >>=-eq-ok (map_err _ (get_finality_status g frost chain client block_ref.hash)) _ e in
        (s, (get_finality_status_iff client block_ref.hash s).0 (map_err-eq-ok _ _ found), cc),
    λ i. rw ((get_finality_status_iff client block_ref.hash i.0).1 i.1) (cc (i.2)),
  )

module _ {C V : Type 0} (g : Grandpa V) (frost : Frost C) (chain : Chain) where
  pub verify_block_hash_iff :
      (block_ref : BlockRef C)
      → (verify_block_hash g frost chain block_ref ≡ ok true) ↔ (
          (header : Header) × HasHeader chain block_ref.hash header
          × (header.number ≡ u64_to_block_number g block_ref.number))
  unfolding verify_block_hash
  verify_block_hash_iff block_ref = (
    λ e.
        let (header, found, e') =
          >>=-eq-ok (map_err _ (require_header frost chain block_ref.hash)) _ e in
        (
          header,
          (require_header_iff frost chain block_ref.hash header).0 (map_err-eq-ok _ _ found),
          ground arith,
        ),
    λ i. rw ((require_header_iff frost chain block_ref.hash i.0).1 i.1) (ground arith),
  )

  -- A block is included exactly when the first state of the chain has it under its number (or under
  -- the greatest block number, if its number is beyond that), the second state has it too, and the
  -- proof is not empty. No byte of the proof matters.
  pub verify_block_inclusion_iff :
      (later : Chain) (block_ref : BlockRef C) (proof : Bytes)
      → (verify_block_inclusion g frost chain later block_ref proof ≡ ok true) ↔ (
          (a b : Header) × HasHeader chain block_ref.hash a
          × (a.number ≡ u64_to_block_number g block_ref.number)
          × HasHeader later block_ref.hash b
          × (0 < length proof))
  unfolding verify_block_inclusion
  verify_block_inclusion_iff later block_ref proof = (
    λ e.
        let (there, checked, e') = >>=-eq-ok (verify_block_hash g frost chain block_ref) _ e in
        elim (Bool-cases there) [
          | inl yes_there ↦
              let (a, found, number) =
                (verify_block_hash_iff block_ref).0 (rw yes_there at checked) in
              let e'' = map_err-eq-ok _ _ (rw yes_there at e') in
              let (b, found', e3) = >>=-eq-ok (require_header frost later block_ref.hash) _ e'' in
              (
                a,
                b,
                found,
                number,
                (require_header_iff frost later block_ref.hash b).0 found',
                ground arith,
              )
          | inr not_there ↦ absurd (cc (rw not_there at e'))
        ],
    λ i.
        let (a, b, found, number, found', some_bytes) = i in
        rw
          (
            (verify_block_hash_iff block_ref).1 (a, found, number),
            (require_header_iff frost later block_ref.hash b).1 found',
          )
          (ground arith),
  )

module _ {V F : Type 0} ⦃fl : Float F⦄ (g : Grandpa V) (chain : Chain) where
  -- The rules, as their names say them.
  pub record FollowsRules (rules : ChainRules F) (s : FinalityStatus F) : Type 0 where
    pub confirmed : u64_to_block_number g rules.min_confirmations ≤ s.confirmations
    pub shallow :
        chain.info.best_number - s.block_number ≤ u64_to_block_number g rules.max_fork_depth
    pub participated :
        s.has_justification ≡ true → fl.lt s.participation_rate rules.min_participation ≡ false

  pub rules_hold_iff :
      (rules : ChainRules F) (s : FinalityStatus F)
      → (rules_hold g chain rules s ≡ true) ↔ FollowsRules rules s
  unfolding rules_hold
  rules_hold_iff rules s = ground arith

module _ {C V F : Type 0} ⦃fl : Float F⦄ (g : Grandpa V) (frost : Frost C) (chain : Chain) where
  -- The chain rules pass exactly when the status of the block can be read and follows each rule.
  pub verify_chain_rules_iff :
      (client : SubstrateVerificationClient V F) (block_ref : BlockRef C) (rules : ChainRules F)
      → (verify_chain_rules g frost chain client block_ref rules ≡ ok true) ↔ (
          (s : FinalityStatus F) × IsStatus g chain client block_ref.hash s
          × FollowsRules g chain rules s)
  unfolding verify_chain_rules
  verify_chain_rules_iff client block_ref rules = (
    λ e.
        let (s, found, e') =
          >>=-eq-ok (map_err _ (get_finality_status g frost chain client block_ref.hash)) _ e in
        (
          s,
          (get_finality_status_iff g frost chain client block_ref.hash s).0
              (map_err-eq-ok _ _ found),
          (rules_hold_iff g chain rules s).0 (cc),
        ),
    λ i. rw (
      (get_finality_status_iff g frost chain client block_ref.hash i.0).1 i.1,
      (rules_hold_iff g chain rules i.0).1 i.2,
    ),
  )

-- A block that is not finalized has no confirmations: they are counted from the finalized block.
pub confirmations_pending :
    {V F : Type 0} ⦃fl : Float F⦄ (g : Grandpa V) (chain : Chain)
    {client : SubstrateVerificationClient V F} {hash : Hash} {s : FinalityStatus F}
    → IsStatus g chain client hash s
    → s.is_finalized ≡ false
    → s.confirmations ≡ 0
confirmations_pending g chain {s = s} i e =
    let later : leb i.header.number chain.info.finalized_number ≡ false = cc (i.status_eq) in
    ground (arith, i.status_eq)
