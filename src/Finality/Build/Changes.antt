-- ===== src/Finality/Build/Changes.antt =====
-- Changes of the authorities, one after another.
use frost_substrate.Prelude.{
  ℕ, ◌≡◌, refl, ap, ◌∙◌, Option, none, some, List, [], ◌∷◌, Result, ok, err, Option-cases, inl, inr,
}
use frost_substrate.External.Chain.{AuthorityList}
use frost_substrate.External.Grandpa.{Grandpa}
use frost_substrate.Finality.Build.{GrandpaFinality, substrate, handle_authority_set_change}
use frost_substrate.Finality.Client.{SubstrateVerificationClient, handle_authority_set_update}

-- An error leaves the predicate as it was.
abbrev after_call : {E A : Type 0} → A → Result E A → A
after_call old (ok new) = new
after_call old (err e) = old

abbrev one_or : {A : Type 0} → A → Option A → A
one_or old none = old
one_or old (some new) = new

module _ {V : Type 0} (g : Grandpa V) where
  -- The voter set of the last list that makes one.
  unfoldable pub last_voter_set : List (AuthorityList × ℕ) → V → V
  last_voter_set [] v = v
  last_voter_set ((a, set_id) ∷ rest) v = last_voter_set rest (one_or v (g.voter_set_new a))

module _ {V F : Type 0} (g : Grandpa V) where
  unfoldable pub run_changes : List (AuthorityList × ℕ) → GrandpaFinality V F → GrandpaFinality V F
  run_changes [] f = f
  run_changes ((a, set_id) ∷ rest) f =
      run_changes rest (after_call f (handle_authority_set_change g a set_id f))

  -- The predicate over a client that votes with a set.
  abbrev pub voting_with :
      V → SubstrateVerificationClient V F → GrandpaFinality V F → GrandpaFinality V F
  voting_with v client f = record f {
    verification_client = substrate (record client { voter_set = v });
  }

  one_change :
      (a : AuthorityList) (set_id : ℕ) (v : V) (client : SubstrateVerificationClient V F)
      (f : GrandpaFinality V F)
      → after_call
          (voting_with v client f)
          (handle_authority_set_change g a set_id (voting_with v client f))
        ≡ voting_with (one_or v (g.voter_set_new a)) client f
  unfolding handle_authority_set_change handle_authority_set_update
  one_change a set_id v client f = elim (Option-cases (g.voter_set_new a)) [
    | inl bad ↦ rw bad
    | inr (w, good) ↦ rw good
  ]

  changes_from :
      (changes : List (AuthorityList × ℕ)) (v : V) (client : SubstrateVerificationClient V F)
      (f : GrandpaFinality V F)
      → run_changes changes (voting_with v client f)
        ≡ voting_with (last_voter_set g changes v) client f
  unfolding run_changes last_voter_set
  changes_from [] v client f = refl
  changes_from ((a, set_id) ∷ rest) v client f =
      ap (run_changes rest) (one_change a set_id v client f)
      ∙ changes_from rest (one_or v (g.voter_set_new a)) client f

  -- However many changes of the authorities come, whatever their set ids, and whichever of them fail:
  -- the client of this repository votes in the end with the last list that makes a voter set, or with its
  -- old set if none does. Nothing else of the client or of the predicate changes, not even the voter set
  -- that the predicate itself holds.
  pub run_changes-last_voter_set :
      (changes : List (AuthorityList × ℕ)) (client : SubstrateVerificationClient V F)
      (f : GrandpaFinality V F)
      → f.verification_client ≡ substrate client
      → run_changes changes f ≡ record f {
        verification_client =
            substrate (record client { voter_set = last_voter_set g changes client.voter_set });
      }
  run_changes-last_voter_set changes client f known =
      ap (λ c. run_changes changes (record f { verification_client = c })) known
      ∙ changes_from changes client.voter_set client f
