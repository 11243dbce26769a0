-- ===== src/Finality/Client/Updates.antt =====
-- How the client's authority set changes.
use frost_substrate.Prelude.{
  ap, ℕ, ◌≡◌, ◌↔◌, some, ok, arith, length, Result-cases, Option-cases, inl, inr,
}
use frost_substrate.External.Chain.{Hash, AuthorityList, Chain}
use frost_substrate.External.Frost.{Frost}
use frost_substrate.External.Grandpa.{Grandpa}
use frost_substrate.Finality.Client.{
  SubstrateVerificationClient, handle_authority_set_update, update_authorities_from_runtime,
}

module _ {C V F : Type 0} (g : Grandpa V) (frost : Frost C) (chain : Chain)
    (client : SubstrateVerificationClient V F) where
  -- An update from the runtime succeeds exactly when the runtime names authorities that make a voter
  -- set. The client then votes with that set and the gauge shows the number of its authorities; the
  -- parameters, the configuration and the cache stay.
  pub update_authorities_from_runtime_iff :
      (hash : Hash) (client' : SubstrateVerificationClient V F)
      → (update_authorities_from_runtime g frost chain hash client ≡ ok client') ↔ (
          (a : AuthorityList) × (v : V) × (chain.grandpa_authorities hash ≡ ok a)
          × (g.voter_set_new a ≡ some v)
          × (client' ≡ record client { voter_set = v; validators_gauge = length a }))
  unfolding update_authorities_from_runtime
  update_authorities_from_runtime_iff hash client' = (
    λ e. elim (Result-cases (chain.grandpa_authorities hash)) [
      | inr (x, failed) ↦ cc (rw failed at e)
      | inl (a, named) ↦ elim (Option-cases (g.voter_set_new a)) [
        | inl bad ↦ cc (rw (named, bad) at e)
        | inr (v, good) ↦ (a, v, named, good, cc (rw (named, good) at e))
      ]
    ],
    λ i. let (a, v, named, good, same) = i in rw (named, good, same),
  )

  -- A pushed set and the same set read from the runtime leave the same voters; only the gauge differs,
  -- which a pushed set does not touch.
  pub handle_authority_set_update_gauge :
      (hash : Hash) (set_id : ℕ) (a : AuthorityList) (pushed read : SubstrateVerificationClient V F)
      → chain.grandpa_authorities hash ≡ ok a
      → handle_authority_set_update g a set_id client ≡ ok pushed
      → update_authorities_from_runtime g frost chain hash client ≡ ok read
      → (read ≡ record pushed { validators_gauge = length a })
        × (pushed.validators_gauge ≡ client.validators_gauge)
  unfolding handle_authority_set_update update_authorities_from_runtime
  handle_authority_set_update_gauge hash set_id a pushed read named e e' =
      elim (Option-cases (g.voter_set_new a)) [
        | inl bad ↦ cc (rw bad at e)
        | inr (v, good) ↦
            let p : ok (record client { voter_set = v }) ≡ ok pushed = rw good at e in
            ground (arith, p, rw (named, good) at e')
      ]

module _ {V F : Type 0} (g : Grandpa V) where
  pub handle_authority_set_update-finality_cache :
      (a : AuthorityList) (set_id : ℕ) (client client' : SubstrateVerificationClient V F)
      → handle_authority_set_update g a set_id client ≡ ok client'
      → client'.finality_cache ≡ client.finality_cache
  unfolding handle_authority_set_update
  handle_authority_set_update-finality_cache a set_id client client' e =
      elim (Option-cases (g.voter_set_new a)) [
        | inl bad ↦ cc (rw bad at e)
        | inr (v, good) ↦ cc (rw good at e)
      ]

module _ {C V F : Type 0} (g : Grandpa V) (frost : Frost C) (chain : Chain) where
  pub update_authorities_from_runtime-finality_cache :
      (hash : Hash) (client client' : SubstrateVerificationClient V F)
      → update_authorities_from_runtime g frost chain hash client ≡ ok client'
      → client'.finality_cache ≡ client.finality_cache
  update_authorities_from_runtime-finality_cache hash client client' e =
      let (a, v, known, made, same) =
        (update_authorities_from_runtime_iff g frost chain client hash client').0 e in
      ap (λ (c : SubstrateVerificationClient V F). c.finality_cache) same
