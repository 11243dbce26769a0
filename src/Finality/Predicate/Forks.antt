-- ===== src/Finality/Predicate/Forks.antt =====
-- Finality by numbers: what `is_final` says of two blocks of one number.
use frost_substrate.Prelude.{
  ℕ, ◌-◌, leb, ◌≡◌, ◌↔◌, sym, ap, ◌∙◌, true, none, Option, List, Bytes, ok,
}
use frost_substrate.External.Chain.{Header, Hash}
use frost_substrate.External.Float.{Float}
use frost_substrate.External.Frost.{Frost, BlockRef, PredicateConfig}
use frost_substrate.External.Grandpa.{Grandpa}
use frost_substrate.Finality.Client.{FinalityStatus}
use frost_substrate.Finality.Client.Decisions.{HasHeader, IsStatus}
use frost_substrate.Finality.Client.Status.{is_some, grandpa_justification, justified_rate}
use frost_substrate.Finality.Client.Queries.{u64_to_block_number}
use frost_substrate.Finality.Predicate.{is_final}
use frost_substrate.Finality.Predicate.Soundness.{Snapshot, moments, IsAccepted, is_final_iff}

module _ {V F : Type 0} ⦃fl : Float F⦄ (g : Grandpa V) where
  -- The chain has two blocks of one number, and justifies neither.
  pub record IsForked (s : Snapshot V F) (one other : Hash) : Type 0 where
    pub header : Header
    pub header' : Header
    pub found : HasHeader s.chain one header
    pub found' : HasHeader s.chain other header'
    pub level : header.number ≡ header'.number
    pub plain : s.chain.justifications one ≡ ok none
    pub plain' : s.chain.justifications other ≡ ok none

  -- Both have the same status.
  IsStatus-fork :
      (s : Snapshot V F) (one other : Hash) (status : FinalityStatus F)
      → IsForked s one other
      → IsStatus g s.chain s.client one status
      → IsStatus g s.chain s.client other status
  IsStatus-fork s one other status fork i =
      let said : ℕ → Option (List (Bytes × Bytes)) → FinalityStatus F = λ n js. record {
        block_number = n;
        confirmations = s.chain.info.finalized_number - n;
        has_justification = is_some (grandpa_justification g js);
        is_finalized = leb n s.chain.info.finalized_number;
        participation_rate = justified_rate g s.client (grandpa_justification g js);
      } in
      let same : i.header ≡ fork.header = cc (i.found, fork.found) in
      let unjustified : i.justifications ≡ none = cc (i.justified, fork.plain) in
      record {
        header = fork.header';
        found = fork.found';
        justifications = none;
        justified = fork.plain';
        status_eq =
            i.status_eq
            ∙ ap (said i.header.number) unjustified
            ∙ ap (λ n. said n none) (ap (λ (h : Header). h.number) same ∙ fork.level);
      }

  turned : (s : Snapshot V F) {one other : Hash} → IsForked s one other → IsForked s other one
  turned s fork = record {
    header = fork.header';
    header' = fork.header;
    found = fork.found';
    found' = fork.found;
    level = sym fork.level;
    plain = fork.plain';
    plain' = fork.plain;
  }

IsAccepted-fork :
    {C V F : Type 0} ⦃fl : Float F⦄ (g : Grandpa V) (frost : Frost C) (config : PredicateConfig F)
    (a b c : Snapshot V F) (one other : BlockRef C)
    → IsForked g a one.hash other.hash
    → IsForked g b one.hash other.hash
    → IsForked g c one.hash other.hash
    → one.number ≡ other.number
    → IsAccepted g frost config a b c one
    → IsAccepted g frost config a b c other
IsAccepted-fork g frost config a b c one other at_hash at_confidence at_rules level i =
    let same : i.header ≡ at_hash.header = cc (i.found, at_hash.found) in
    record {
      header = at_hash.header';
      found = at_hash.found';
      number =
          sym at_hash.level
          ∙ sym (ap (λ (h : Header). h.number) same)
          ∙ i.number
          ∙ ap (u64_to_block_number g) level;
      seen = i.seen;
      seen_status = IsStatus-fork g b one.hash other.hash i.seen at_confidence i.seen_status;
      confident = i.confident;
      ruled = i.ruled;
      ruled_status = IsStatus-fork g c one.hash other.hash i.ruled at_rules i.ruled_status;
      follows = i.follows;
    }

-- Finality is decided by numbers: of two blocks of one number that the chain has at all three awaits, with
-- no justification for either, `is_final` says yes to both or to none.
pub is_final_fork :
    {C V F : Type 0} ⦃fl : Float F⦄ (g : Grandpa V) (frost : Frost C) (config : PredicateConfig F)
    (a b c : Snapshot V F) (one other : BlockRef C)
    → IsForked g a one.hash other.hash
    → IsForked g b one.hash other.hash
    → IsForked g c one.hash other.hash
    → one.number ≡ other.number
    → (is_final frost config (moments g frost a b c) one ≡ ok true)
      ↔ (is_final frost config (moments g frost a b c) other ≡ ok true)
is_final_fork g frost config a b c one other at_hash at_confidence at_rules level = (
  λ e. (is_final_iff g frost config a b c other).1 (
      IsAccepted-fork g frost config a b c one other at_hash at_confidence at_rules level
        ((is_final_iff g frost config a b c one).0 e)),
  λ e. (is_final_iff g frost config a b c one).1 (
      IsAccepted-fork g frost config a b c other one (turned g a at_hash) (turned g b at_confidence)
        (turned g c at_rules) (sym level) ((is_final_iff g frost config a b c other).0 e)),
)
