-- ===== src/Finality/Client/Weights.antt =====
-- The voting weight that `verify_justification` counts.
use frost_substrate.Prelude.{
  sym, ℕ, zero, suc, ◌+◌, ◌*◌, ◌≤◌, ◌≡◌, refl, min, true, Option, none, some, List, [], ◌∷◌, Bytes,
  bytes_eq, bytes_eq_iff, replicate, arith, if◌then◌else◌, Bool-cases, inl, inr,
}
use frost_substrate.External.Chain.{AuthorityList}
use frost_substrate.External.Grandpa.{Grandpa, IsVoterSets, SignedPrecommit, sum_weights, weight_in}
use frost_substrate.Finality.Client.Justification.{
  u64_max, Tally, no_votes, is_signed, count_precommit, tally,
}

abbrev weight_or_zero : Option ℕ → ℕ
weight_or_zero none = 0
weight_or_zero (some w) = w

-- How often an id signs.
abbrev pub count : Bytes → List Bytes → ℕ
count k [] = 0
count k (j ∷ rest) = (if bytes_eq j k then 1 else 0) + count k rest

abbrev pub IsDistinct : List Bytes → Type 0
IsDistinct ids = (k : Bytes) → count k ids ≤ 1

abbrev pub signers : List SignedPrecommit → List Bytes
signers [] = []
signers (p ∷ rest) = p.id ∷ signers rest

-- The weight in a list of voters of the ids, one after another.
abbrev weight_of_all : List Bytes → AuthorityList → ℕ
weight_of_all [] voters = 0
weight_of_all (k ∷ rest) voters = weight_or_zero (weight_in k voters) + weight_of_all rest voters

weight_of_all-cons :
    (ids : List Bytes) (j : Bytes) (w : ℕ) (voters : AuthorityList)
    → weight_of_all ids ((j, w) ∷ voters) ≤ count j ids * w + weight_of_all ids voters
weight_of_all-cons [] j w voters = omega arith
weight_of_all-cons (k ∷ rest) j w voters = elim (Bool-cases (bytes_eq j k)) [
  | inl same ↦
      let back : bytes_eq k j ≡ true = (bytes_eq_iff k j).1 (sym ((bytes_eq_iff j k).0 same)) in
      rw (same, back) (omega (arith, weight_of_all-cons rest j w voters))
  | inr other ↦ rw other (grind (arith, weight_of_all-cons rest j w voters))
]

weight_of_all_nil : (ids : List Bytes) → weight_of_all ids [] ≡ 0
weight_of_all_nil [] = refl
weight_of_all_nil (k ∷ rest) = omega (arith, weight_of_all_nil rest)

-- Different ids weigh together at most what all the voters weigh.
weight_of_all-le :
    (ids : List Bytes) (voters : AuthorityList)
    → IsDistinct ids
    → weight_of_all ids voters ≤ sum_weights voters
weight_of_all-le ids [] d = omega (arith, weight_of_all_nil ids)
weight_of_all-le ids ((j, w) ∷ voters) d =
    grind (arith, weight_of_all-cons ids j w voters, weight_of_all-le ids voters d, d j)

module _ {V : Type 0} (g : Grandpa V) (authority_set : V) where
  -- What one precommit weighs: the voter's weight, if the signature is the voter's.
  abbrev pub weight_of : SignedPrecommit → ℕ
  weight_of p =
      if is_signed g authority_set p then weight_or_zero (g.voter_weight authority_set p.id) else 0

  abbrev pub weight_of_votes : List SignedPrecommit → ℕ
  weight_of_votes [] = 0
  weight_of_votes (p ∷ rest) = weight_of p + weight_of_votes rest

  count_precommit-signed_weight :
      (p : SignedPrecommit) (t : Tally)
      → t.signed_weight ≤ u64_max
      → (count_precommit g authority_set p t).signed_weight
        ≡ min (t.signed_weight + weight_of p) u64_max
  unfolding count_precommit
  count_precommit-signed_weight p t fits = ground arith

  tally-signed_weight :
      (votes : List SignedPrecommit) (t : Tally)
      → t.signed_weight ≤ u64_max
      → (tally g authority_set votes t).signed_weight
        ≡ min (t.signed_weight + weight_of_votes votes) u64_max
  unfolding tally
  tally-signed_weight [] t fits = omega arith
  tally-signed_weight (p ∷ rest) t fits =
      let step = count_precommit-signed_weight p t fits in
      omega (
        arith,
        step,
        tally-signed_weight rest (count_precommit g authority_set p t) (omega (arith, step)),
      )

  -- The counted weight is the sum of the weights of the votes that are signed by voters, cut off at
  -- the greatest u64: the loop never overflows.
  pub signed_weight-tally :
      (votes : List SignedPrecommit)
      → (tally g authority_set votes no_votes).signed_weight ≡ min (weight_of_votes votes) u64_max
  signed_weight-tally votes = omega (arith, tally-signed_weight votes no_votes (omega arith))

  weight_of_votes-replicate :
      (n : ℕ) (p : SignedPrecommit) → weight_of_votes (replicate n p) ≡ n * weight_of p
  weight_of_votes-replicate zero p = omega arith
  weight_of_votes-replicate (suc n) p = grind (arith, weight_of_votes-replicate n p)

  -- A vote counts as often as it stands in the justification: n copies of one precommit count n times
  -- its weight, cut off at the greatest u64.
  pub signed_weight_repeated :
      (n : ℕ) (p : SignedPrecommit)
      → (tally g authority_set (replicate n p) no_votes).signed_weight
        ≡ min (n * weight_of p) u64_max
  signed_weight_repeated n p =
      omega (arith, signed_weight-tally (replicate n p), weight_of_votes-replicate n p)

  module _ (laws : IsVoterSets V g) where
    weight_of_votes-le :
        (votes : List SignedPrecommit)
        → weight_of_votes votes ≤ weight_of_all (signers votes) (laws.voters authority_set)
    weight_of_votes-le [] = omega arith
    weight_of_votes-le (p ∷ rest) =
        rw (laws.get_voters authority_set p.id) (ground (arith, weight_of_votes-le rest))

    -- If no id signs twice, the counted weight is at most the total weight of the voter set, and it is
    -- the sum of the weights of the valid votes with nothing cut off.
    pub signed_weight-le-total_weight :
        (votes : List SignedPrecommit)
        → IsDistinct (signers votes)
        → let t = tally g authority_set votes no_votes in
          (t.signed_weight ≤ g.total_weight authority_set)
          × (t.signed_weight ≡ weight_of_votes votes)
    signed_weight-le-total_weight votes distinct =
        let below = weight_of_votes-le votes in
        let inside = weight_of_all-le (signers votes) (laws.voters authority_set) distinct in
        let total = laws.total_voters authority_set in
        let fits = laws.total_fits authority_set in omega (arith, signed_weight-tally votes)
