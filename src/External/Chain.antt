-- ===== src/External/Chain.antt =====
-- The substrate client (`HeaderBackend`, `BlockBackend`, the runtime API), as one state of the chain.
-- A call that reads the chain later takes a later `Chain`.
use frost_substrate.Prelude.{ℕ, String, Bytes, List, Option, Result}

-- A `[u8; 32]` and an `H256` are both the list of their bytes.
abbrev pub Hash : Type 0
Hash = Bytes

-- Authority ids (public keys) with their weights.
abbrev pub AuthorityList : Type 0
AuthorityList = List (Bytes × ℕ)

pub record Header : Type 0 where
  pub number : ℕ
  pub hash : Hash
  pub parent_hash : Hash
  pub state_root : Hash

pub record Info : Type 0 where
  pub best_hash : Hash
  pub best_number : ℕ
  pub finalized_number : ℕ

-- An error of the client is its text.
pub record Chain : Type 0 where
  pub info : Info
  pub header : Hash → Result String (Option Header)
  -- Encoded justifications with their engines' ids.
  pub justifications : Hash → Result String (Option (List (Bytes × Bytes)))
  pub grandpa_authorities : Hash → Result String AuthorityList
