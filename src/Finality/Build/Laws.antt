-- ===== src/Finality/Build/Laws.antt =====
-- What building and updating a `GrandpaFinality` does.
use frost_substrate.Prelude.{ℕ, ◌≡◌, ◌↔◌, some, [], ok, err, panic, Option-cases, inl, inr}
use frost_substrate.External.Chain.{AuthorityList}
use frost_substrate.External.Frost.{PredicateConfig}
use frost_substrate.External.Grandpa.{Grandpa, IsVoterSets}
use frost_substrate.Finality.Build.{
  GrandpaFinality, DynClient, substrate, new_finality, handle_authority_set_change,
}
use frost_substrate.Finality.Client.{SubstrateVerificationClient, handle_authority_set_update}

module _ {V F : Type 0} (g : Grandpa V) where
  -- A change of the authorities succeeds exactly when they make a voter set. The client of this
  -- repository then votes with that set; the predicate's own voter set is not touched.
  pub handle_authority_set_change_iff :
      (a : AuthorityList) (set_id : ℕ) (f f' : GrandpaFinality V F)
      (client : SubstrateVerificationClient V F)
      → f.verification_client ≡ substrate client
      → (handle_authority_set_change g a set_id f ≡ ok f') ↔ (
          (v : V) × (g.voter_set_new a ≡ some v)
          × (f' ≡ record f { verification_client = substrate (record client { voter_set = v }) }))
  unfolding handle_authority_set_change handle_authority_set_update
  handle_authority_set_change_iff a set_id f f' client known = (
    λ e. elim (Option-cases (g.voter_set_new a)) [
      | inl bad ↦ cc (rw bad at e)
      | inr (v, good) ↦ (v, good, cc (rw (good, known, good) at e))
    ],
    λ i. let (v, good, same) = i in rw (good, known, good, same),
  )

  -- A predicate over an empty authority list cannot be built: `new` panics.
  pub new_finality_empty :
      {E : Type 0} (config : PredicateConfig F) (client : DynClient V F)
      → IsVoterSets V g
      → new_finality g {E = E} config client [] ≡ err panic
  unfolding new_finality
  new_finality_empty config client laws = rw laws.new_empty
