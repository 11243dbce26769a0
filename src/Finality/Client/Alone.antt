-- ===== src/Finality/Client/Alone.antt =====
-- A call of the status cache that nothing comes between.
use frost_substrate.Prelude.{
  ℕ, ◌≤◌, ◌≡◌, ◌==◌, sym, ap, ◌∙◌, true, arith, inl, inr, lookup, ok, if◌then◌else◌, Option-cases,
  Result-cases,
}
use native.Mathlib.Nat.{le_refl}
use frost_substrate.External.Chain.{Hash, Chain}
use frost_substrate.External.Float.{Float}
use frost_substrate.External.Frost.{Frost}
use frost_substrate.External.Grandpa.{Grandpa}
use frost_substrate.Finality.Client.{SubstrateVerificationClient, FinalityStatus}
use frost_substrate.Finality.Client.Cache.{fresh_status, store_status, get_finality_status_cached}
use frost_substrate.Finality.Client.CacheLaws.{cached_hit, cached_read, cached_failed}
use frost_substrate.Finality.Client.Status.{get_finality_status}
use frost_substrate.Finality.Client.Tasks.{
  Phase, asked, missed, holding, answered, Tasks, in_phase, with_client, asks, hits, misses,
  fetches, stores, Reached, unchanged, one_more,
}

module _ {C V F : Type 0} ⦃fl : Float F⦄ (g : Grandpa V) (frost : Frost C) (world : ℕ → Chain)
    (m : Tasks V F) (i now : ℕ) (hash : Hash) (le : m.now ≤ now) where
  self : (p q : Phase F) → (if i == i then p else q) ≡ p
  self p q = let same : (i == i) ≡ true = ground arith in rw same

  -- What a call leads to that answers from the cache, and one that reads the chain.
  abbrev after_hit : FinalityStatus F → Tasks V F
  after_hit s = in_phase now i (answered hash s now) (in_phase now i (asked hash) m)

  abbrev after_read : FinalityStatus F → Tasks V F
  after_read s =
      let there =
        in_phase now i (holding hash s now)
          (in_phase now i (missed hash) (in_phase now i (asked hash) m)) in
      with_client now (store_status now hash s m.client)
        (in_phase now i (answered hash s now) there)

  -- A call that nothing comes between answers and stores what `get_finality_status_cached` does.
  pub get_finality_status_cached-Reached :
      (s : FinalityStatus F) (client : SubstrateVerificationClient V F)
      → get_finality_status_cached g frost (world now) now hash m.client ≡ (ok s, client)
      → (m' : Tasks V F) × Reached g frost world m m'
        × (m'.phase i ≡ answered hash s now)
        × (m'.client ≡ client)
  get_finality_status_cached-Reached s client e =
      let now_again = le_refl now in
      let asking : Reached g frost world m (in_phase now i (asked hash) m) =
        one_more unchanged (asks now i hash le) in
      elim (Option-cases (fresh_status now (lookup hash m.client.finality_cache))) [
        | inr (s', fresh) ↦
            let done = sym (cached_hit g frost (world now) now hash m.client s' fresh) ∙ e in
            let same : s' ≡ s = cc (ap (λ x. x.0) done) in
            (
              after_hit s',
              one_more asking (hits now i hash s' now_again (self (asked hash) _) fresh),
              self _ _ ∙ ap (λ x. answered hash x now) same,
              ap (λ x. x.1) done,
            )
        | inl stale ↦ elim (Result-cases (get_finality_status g frost (world now) m.client hash)) [
          | inr (x, failed) ↦
              let done =
                sym (cached_failed g frost (world now) now hash m.client x stale failed) ∙ e in
              absurd (cc (ap (λ x. x.0) done))
          | inl (s', read) ↦
              let done =
                sym (cached_read g frost (world now) now hash m.client s' stale read) ∙ e in
              let same : s' ≡ s = cc (ap (λ x. x.0) done) in
              let missing =
                one_more asking (misses now i hash now_again (self (asked hash) _) stale) in
              let fetched =
                one_more missing (fetches now i hash s' now_again (self (missed hash) _) read) in
              (
                after_read s',
                one_more fetched
                    (stores now i hash s' now now_again (self (holding hash s' now) _)),
                self _ _ ∙ ap (λ x. answered hash x now) same,
                ap (λ x. x.1) done,
              )
        ]
      ]
