-- ===== src/External/Grandpa.antt =====
-- The GRANDPA crates: justifications, signatures and finality_grandpa's `VoterSet`.
use frost_substrate.Prelude.{
  ℕ, ◌+◌, ◌<◌, ◌^◌, ◌≡◌, Bool, String, Option, none, some, List, [], ◌∷◌, Bytes, Result, bytes_eq,
  if◌then◌else◌,
}
use frost_substrate.External.Chain.{Hash, AuthorityList}

pub record Precommit : Type 0 where
  pub target_hash : Hash
  pub target_number : ℕ

pub record SignedPrecommit : Type 0 where
  pub precommit : Precommit
  pub signature : Bytes
  pub id : Bytes

-- `commit.precommits`, the part of a `GrandpaJustification` that the code reads.
pub record Justification : Type 0 where
  pub precommits : List SignedPrecommit

pub record Grandpa (V : Type 0) : Type 0 where
  pub voter_set_new : AuthorityList → Option V
  -- `VoterSet::get` with the weight of the `VoterInfo` it finds.
  pub voter_weight : V → Bytes → Option ℕ
  pub total_weight : V → ℕ
  pub encode_precommit : Precommit → Bytes
  -- Signature, message, public key.
  pub verify : Bytes → Bytes → Bytes → Bool
  pub decode_justification : Bytes → Result String Justification
  pub into_justification : List (Bytes × Bytes) → Option Bytes
  -- `DefaultHasher` over an authority list.
  pub hash_authorities : AuthorityList → ℕ
  -- The greatest block number: 2 ^ 32 - 1 for the `u32` of the observer.
  pub max_number : ℕ

abbrev pub sum_weights : AuthorityList → ℕ
sum_weights [] = 0
sum_weights ((id, w) ∷ rest) = w + sum_weights rest

abbrev pub weight_in : Bytes → AuthorityList → Option ℕ
weight_in k [] = none
weight_in k ((id, w) ∷ rest) = if bytes_eq id k then some w else weight_in k rest

-- What the documentation of `VoterSet` says: a set is a list of voters, in which `get` looks an id up,
-- the total weight is the sum of theirs and fits a u64, and an empty distribution makes no set.
pub record IsVoterSets (V : Type 0) (g : Grandpa V) : Type 0 where
  pub voters : V → AuthorityList
  pub get_voters : (v : V) (k : Bytes) → g.voter_weight v k ≡ weight_in k (voters v)
  pub total_voters : (v : V) → g.total_weight v ≡ sum_weights (voters v)
  pub total_fits : (v : V) → g.total_weight v < 2 ^ 64
  pub new_empty : g.voter_set_new [] ≡ none
