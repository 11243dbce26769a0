-- ===== src/Finality/Client/Staleness.antt =====
-- How old an answer of the status cache can be, over every run of the client.
use frost_substrate.Prelude.{
  lookup-All, All, lookup, ℕ, ◌+◌, ◌≤◌, ◌<◌, ◌≡◌, ap, ◌∙◌, inl, inr, Option-cases, List, [], ◌∷◌,
  arith, ok, Result-cases,
}
use native.Mathlib.Nat.{le_trans, le_refl}
use frost_substrate.External.Chain.{Hash, Chain, AuthorityList}
use frost_substrate.External.Float.{Float}
use frost_substrate.External.Frost.{Frost}
use frost_substrate.External.Grandpa.{Grandpa}
use frost_substrate.Finality.Client.{
  SubstrateVerificationClient, FinalityStatus, CacheEntry, handle_authority_set_update,
  update_authorities_from_runtime,
}
use frost_substrate.Finality.Client.Cache.{fresh_status, store_status, get_finality_status_cached}
use frost_substrate.Finality.Client.CacheLaws.{cached_hit, cached_read, cached_failed}
use frost_substrate.Finality.Client.Updates.{
  handle_authority_set_update-finality_cache, update_authorities_from_runtime-finality_cache,
}
use frost_substrate.Finality.Client.Status.{get_finality_status}
use frost_substrate.Finality.Client.CacheEntries.{store_status-All, fresh_status-young}
use frost_substrate.Finality.Config.{from_secs}

-- The client at one moment of a run, in nanoseconds.
pub record Moment (V F : Type 0) : Type 0 where
  pub now : ℕ
  pub client : SubstrateVerificationClient V F

-- `world` is the chain as it is at each moment.
module _ {C V F : Type 0} ⦃fl : Float F⦄ (g : Grandpa V) (frost : Frost C) (world : ℕ → Chain) where
  -- A call of the client, at a later moment or the same.
  pub data Step (m : Moment V F) : Moment V F → Type 0 where
    asks :
        (later : ℕ) (hash : Hash)
        → m.now ≤ later
        → Step m (record {
          now = later;
          client = (get_finality_status_cached g frost (world later) later hash m.client).1;
        })
    is_told :
        (later set_id : ℕ) (a : AuthorityList) (client' : SubstrateVerificationClient V F)
        → m.now ≤ later
        → handle_authority_set_update g a set_id m.client ≡ ok client'
        → Step m (record { now = later; client = client' })
    reads :
        (later : ℕ) (hash : Hash) (client' : SubstrateVerificationClient V F)
        → m.now ≤ later
        → update_authorities_from_runtime g frost (world later) hash m.client ≡ ok client'
        → Step m (record { now = later; client = client' })

  pub data Reached (start : Moment V F) : Moment V F → Type 0 where
    unchanged : Reached start start
    one_more : {m m' : Moment V F} → Step m m' → Reached start m → Reached start m'

  -- At the moment `then` of the run, its client answered this status from the chain.
  pub record Answered (start : Moment V F) (past : ℕ) (hash : Hash) (s : FinalityStatus F)
      : Type 0 where
    pub before : Moment V F
    pub reached : Reached start before
    pub read : get_finality_status g frost (world past) before.client hash ≡ ok s

  -- What is cached was answered before.
  abbrev IsBacked : Moment V F → ℕ → Hash × CacheEntry F → Type 0
  IsBacked start now p = (p.1.timestamp ≤ now) × Answered start p.1.timestamp p.0 p.1.status

  IsBacked-later :
      (start : Moment V F) (now later : ℕ) (m : List (Hash × CacheEntry F))
      → now ≤ later
      → All (IsBacked start now) m
      → All (IsBacked start later) m
  IsBacked-later start now later [] le all = tt
  IsBacked-later start now later (p ∷ rest) le all =
      ((le_trans all.0.0 le, all.0.1), IsBacked-later start now later rest le all.1)

  module _ (start : Moment V F) where
    ask-IsBacked :
        (m : Moment V F) (later : ℕ) (hash : Hash)
        → m.now ≤ later
        → Reached start m
        → All (IsBacked start m.now) m.client.finality_cache
        → All
            (IsBacked start later)
            (get_finality_status_cached g frost (world later) later hash m.client).1.finality_cache
    unfolding store_status
    ask-IsBacked m later hash le reached backed =
        let kept = IsBacked-later start m.now later m.client.finality_cache le backed in
        elim (Option-cases (fresh_status later (lookup hash m.client.finality_cache))) [
          | inr (s, fresh) ↦ rw (cached_hit g frost (world later) later hash m.client s fresh) kept
          | inl stale ↦
              elim (Result-cases (get_finality_status g frost (world later) m.client hash)) [
                | inr (e, failed) ↦
                    rw (cached_failed g frost (world later) later hash m.client e stale failed) kept
                | inl (s, read) ↦
                    rw (cached_read g frost (world later) later hash m.client s stale read) (
                      store_status-All (IsBacked start later) later hash s m.client
                        (le_refl later, record { before = m; reached = reached; read = read }) kept)
              ]
        ]

    Reached-IsBacked :
        {m : Moment V F}
        → start.client.finality_cache ≡ []
        → Reached start m
        → All (IsBacked start m.now) m.client.finality_cache
    Reached-IsBacked empty unchanged = rw empty tt
    Reached-IsBacked empty (one_more {m} (asks later hash le) r) =
        ask-IsBacked m later hash le r (Reached-IsBacked empty r)
    Reached-IsBacked empty (one_more {m} (is_told later set_id a client' le e) r) =
        rw (handle_authority_set_update-finality_cache g a set_id m.client client' e)
          (IsBacked-later start m.now later m.client.finality_cache le (Reached-IsBacked empty r))
    Reached-IsBacked empty (one_more {m} (reads later hash client' le e) r) =
        rw
          (update_authorities_from_runtime-finality_cache g frost (world later) hash m.client
            client' e)
          (IsBacked-later start m.now later m.client.finality_cache le (Reached-IsBacked empty r))

  -- No cached answer is five seconds old. In every run of calls and set changes that starts with an empty
  -- cache, what a cached call answers is what the chain answered, less than five seconds before or now,
  -- to a client that the run went through.
  pub get_finality_status_cached_recent :
      (start : Moment V F) {m : Moment V F}
      → start.client.finality_cache ≡ []
      → Reached start m
      → (now : ℕ) (hash : Hash) (s : FinalityStatus F) → m.now ≤ now
      → (get_finality_status_cached g frost (world now) now hash m.client).0 ≡ ok s
      → (past : ℕ) × (past ≤ now) × (now < past + from_secs 5) × Answered start past hash s
  get_finality_status_cached_recent start {m} empty reached now hash s le answered =
      elim (Option-cases (fresh_status now (lookup hash m.client.finality_cache))) [
        | inr (s', fresh) ↦
            let (e, found, young, status) = fresh_status-young now _ s' fresh in
            let (not_after, backed) =
              lookup-All (IsBacked start m.now) hash e m.client.finality_cache found
                (Reached-IsBacked start empty reached) in
            let same : e.status ≡ s = cc (
              status,
              ap (λ r. r.0) (cached_hit g frost (world now) now hash m.client s' fresh),
              answered,
            ) in
            (e.timestamp, omega arith, omega arith, rw same at backed)
        | inl stale ↦ elim (Result-cases (get_finality_status g frost (world now) m.client hash)) [
          | inr (e, failed) ↦ absurd (
              cc (
                ap (λ r. r.0) (cached_failed g frost (world now) now hash m.client e stale failed),
                answered,
              ))
          | inl (s', read) ↦
              let same : s' ≡ s = cc (
                ap (λ r. r.0) (cached_read g frost (world now) now hash m.client s' stale read),
                answered,
              ) in
              (
                now,
                le_refl now,
                omega arith,
                record { before = m; reached = reached; read = read ∙ ap ok same },
              )
        ]
      ]
