-- ===== src/Examples/World.antt =====
-- Concrete values for what the definitions take as parameters: voter sets that are lists, proofs that are
-- their data, and a chain of one block.
use frost_substrate.Prelude.{
  ◌-◌, ℕ, ◌<◌, ◌^◌, refl, Option, none, some, List, [], ◌∷◌, Bytes, bytes_eq, length, ltb, ltb_iff,
  if◌then◌else◌, ok, Bool-cases, inl, inr, replicate,
}
use frost_substrate.External.Chain.{AuthorityList, Hash, Header, Chain}
use frost_substrate.External.Float.{Millionths, millionths_float}
use frost_substrate.External.Frost.{Frost, BlockRef, PredicateConfig}
use frost_substrate.External.Grandpa.{Grandpa, IsVoterSets, SignedPrecommit, sum_weights, weight_in}
use frost_substrate.External.State.{States, IsStates, ProofData}
use frost_substrate.Finality.Client.{SubstrateVerificationClient, new_client}
use frost_substrate.Finality.Config.{params_default, chain_config_default}
use frost_substrate.Finality.Predicate.Soundness.{Snapshot}

-- A list of voters whose weights fit a u64.
pub record Voters : Type 0 where
  pub list : AuthorityList
  pub fits : sum_weights list < 2 ^ 64

abbrev make_voters : AuthorityList → Option Voters
make_voters [] = none
make_voters (a ∷ rest) = elim (Bool-cases (ltb (sum_weights (a ∷ rest)) (2 ^ 64))) [
  | inl h ↦ some (record { list = a ∷ rest; fits = (ltb_iff _ _).0 h })
  | inr h ↦ none
]

-- A signature is the id of its signer.
abbrev pub grandpa : Grandpa Voters
grandpa = record {
  voter_set_new = make_voters;
  voter_weight = λ v k. weight_in k v.list;
  total_weight = λ v. sum_weights v.list;
  encode_precommit = λ p. p.target_hash;
  verify = λ signature message id. bytes_eq signature id;
  decode_justification = λ b. ok (record { precommits = [] });
  into_justification = λ js. none;
  hash_authorities = λ a. length a;
  max_number = 2 ^ 32 - 1;
}

pub grandpa-IsVoterSets : IsVoterSets Voters grandpa
grandpa-IsVoterSets = record {
  voters = λ v. v.list;
  get_voters = λ v k. refl;
  total_voters = λ v. refl;
  total_fits = λ v. v.fits;
  new_empty = refl;
}

abbrev pub alice : Bytes
alice = 1 ∷ []

abbrev pub bob : Bytes
bob = 2 ∷ []

abbrev pub two_voters : Voters
two_voters = record { list = (alice, 5) ∷ (bob, 7) ∷ []; fits = (ltb_iff _ _).0 refl }

abbrev pub vote : Bytes → SignedPrecommit
vote id = record {
  precommit = record { target_hash = []; target_number = 10 };
  signature = id;
  id = id;
}

abbrev pub frost : Frost ℕ
frost = record {
  chain_id_new = λ s. 1;
  chain_id_default = 0;
  display_error = λ e. "error";
  debug_hash = λ h. "hash";
  display_hash = λ h. "hash";
}

-- Proofs are their data; encodings are 100 bytes.
abbrev pub states : States ℕ ProofData
states = record {
  default_block_ref = record { hash = []; number = 0; chain_id = 0 };
  default_state_root = record {
    block_ref = record { hash = []; number = 0; chain_id = 0 };
    root_hash = [];
  };
  new_proof = λ t d. d;
  proof_type_of = λ d. d.proof_type;
  encode_proof = λ d. d.content;
  from_utf8_lossy = λ b. "text";
  hex_encode = λ b. "hex";
  display_size = λ n. "size";
  to_value = λ m. ok m;
  to_vec = λ d. ok (replicate 100 0);
  merkle_root = first_leaf;
}
  where
    first_leaf : List Bytes → Option Bytes
    first_leaf [] = none
    first_leaf (l ∷ rest) = some l

pub states-IsStates : IsStates ℕ ProofData states
states-IsStates = record { type_new_proof = λ t d. refl; root_empty = refl }

abbrev pub block_hash : Hash
block_hash = replicate 32 9

abbrev pub block : Header
block = record { number = 10; hash = block_hash; parent_hash = []; state_root = [] }

-- The chain of block 10, whose best and finalized blocks have the given numbers.
abbrev pub chain_at : (best finalized : ℕ) → Chain
chain_at best finalized = record {
  info = record { best_hash = block_hash; best_number = best; finalized_number = finalized };
  header = λ h. if bytes_eq h block_hash then ok (some block) else ok none;
  justifications = λ h. ok none;
  grandpa_authorities = λ h. ok ((alice, 5) ∷ (bob, 7) ∷ []);
}

abbrev pub client : SubstrateVerificationClient Voters Millionths
client = new_client two_voters params_default chain_config_default 0

abbrev pub snapshot : (best finalized : ℕ) → Snapshot Voters Millionths
snapshot best finalized = record { chain = chain_at best finalized; client = client }

abbrev pub block_ref : BlockRef ℕ
block_ref = record { hash = block_hash; number = 10; chain_id = 0 }

abbrev pub config_asking : (confirmations : ℕ) → PredicateConfig Millionths
config_asking n = record {
  confidence_threshold = 960_000;
  min_confirmations = n;
  evaluation_timeout = 10_000_000_000;
}
