-- ===== src/Finality/Client/CacheLaws.antt =====
-- What the status cache promises.
use frost_substrate.Prelude.{
  lookup, insert, lookup-insert, ap, ◌∙◌, Result-cases, ℕ, ◌+◌, ◌-◌, ◌<◌, ◌≡◌, refl, none, some,
  List, [], ◌∷◌, bytes_eq_refl, arith, All, Result, ok, err, inl, inr,
}
use frost_substrate.External.Chain.{Hash, Chain}
use frost_substrate.External.Float.{Float}
use frost_substrate.External.Frost.{Frost}
use frost_substrate.External.Grandpa.{Grandpa}
use frost_substrate.Finality.Client.{
  GrandpaFinalityVerificationError, SubstrateVerificationClient, FinalityStatus, CacheEntry,
}
use frost_substrate.Finality.Client.Cache.{
  retain_younger, fresh_status, store_status, get_finality_status_cached,
}
use frost_substrate.Finality.Client.Status.{get_finality_status}
use frost_substrate.Finality.Config.{from_secs}

module _ {F : Type 0} where
  abbrev pub entry : FinalityStatus F → ℕ → CacheEntry F
  entry s t = record { status = s; timestamp = t }

  lookup-insert_self :
      (k : Hash) (e : CacheEntry F) (m : List (Hash × CacheEntry F))
      → lookup k (insert k e m) ≡ some e
  lookup-insert_self k e m = lookup-insert k k e m ∙ rw (bytes_eq_refl k)

  -- Every entry is younger than the limit.
  abbrev pub IsYoung : ℕ → ℕ → List (Hash × CacheEntry F) → Type 0
  IsYoung limit now = All λ p. now - p.1.timestamp < limit

  retain_younger-IsYoung :
      (limit now : ℕ) (m : List (Hash × CacheEntry F))
      → IsYoung limit now (retain_younger limit now m)
  unfolding retain_younger
  retain_younger-IsYoung limit now [] = tt
  retain_younger-IsYoung limit now ((j, e) ∷ rest) =
      ground (arith, retain_younger-IsYoung limit now rest)

  -- The first entry of a key survives if it is young.
  lookup-retain_younger :
      (limit now : ℕ) (k : Hash) (e : CacheEntry F) (m : List (Hash × CacheEntry F))
      → now - e.timestamp < limit
      → lookup k m ≡ some e
      → lookup k (retain_younger limit now m) ≡ some e
  unfolding lookup retain_younger
  lookup-retain_younger limit now k e [] young h = cc
  lookup-retain_younger limit now k e ((j, d) ∷ rest) young h =
      ground (arith, lookup-retain_younger limit now k e rest young)

  fresh_status_young :
      (now : ℕ) (e : CacheEntry F)
      → now - e.timestamp < from_secs 5
      → fresh_status now (some e) ≡ some e.status
  unfolding fresh_status
  fresh_status_young now e young = ground arith

module _ {V F : Type 0} (now : ℕ) (hash : Hash) (s : FinalityStatus F)
    (client : SubstrateVerificationClient V F) where
  lookup-store_status :
      lookup hash (store_status now hash s client).finality_cache ≡ some (entry s now)
  unfolding store_status
  lookup-store_status =
      lookup-retain_younger (from_secs 30) now hash (entry s now) _ (omega arith)
        (lookup-insert_self hash (entry s now) client.finality_cache)

  store_status-IsYoung : IsYoung (from_secs 30) now (store_status now hash s client).finality_cache
  unfolding store_status
  store_status-IsYoung = retain_younger-IsYoung (from_secs 30) now _

module _ {C V F : Type 0} ⦃fl : Float F⦄ (g : Grandpa V) (frost : Frost C) where
  module _ (chain : Chain) (now : ℕ) (hash : Hash) (client : SubstrateVerificationClient V F) where
    abbrev pub cached :
        Result GrandpaFinalityVerificationError (FinalityStatus F) × SubstrateVerificationClient V F
    cached = get_finality_status_cached g frost chain now hash client

    pub cached_hit :
        (s : FinalityStatus F)
        → fresh_status now (lookup hash client.finality_cache) ≡ some s
        → cached ≡ (ok s, client)
    unfolding get_finality_status_cached
    cached_hit s fresh = rw (fresh, get_finality_status_cached)

    pub cached_read :
        (s : FinalityStatus F)
        → fresh_status now (lookup hash client.finality_cache) ≡ none
        → get_finality_status g frost chain client hash ≡ ok s
        → cached ≡ (ok s, store_status now hash s client)
    unfolding get_finality_status_cached
    cached_read s stale read = rw (stale, read, get_finality_status_cached)

    pub cached_failed :
        (e : GrandpaFinalityVerificationError)
        → fresh_status now (lookup hash client.finality_cache) ≡ none
        → get_finality_status g frost chain client hash ≡ err e
        → cached ≡ (err e, client)
    unfolding get_finality_status_cached
    cached_failed e stale failed = rw (stale, failed, get_finality_status_cached)

  -- Within five seconds of a call that read the chain, the same call answers the status that was read,
  -- whatever the chain has become, and leaves the client as it is.
  pub get_finality_status_cached_again :
      (before after : Chain) (t dt : ℕ) (hash : Hash) (client : SubstrateVerificationClient V F)
      (s : FinalityStatus F)
      → fresh_status t (lookup hash client.finality_cache) ≡ none
      → get_finality_status g frost before client hash ≡ ok s
      → dt < from_secs 5
      → let (r, client') = get_finality_status_cached g frost before t hash client in
        (r ≡ ok s)
        × (get_finality_status_cached g frost after (t + dt) hash client' ≡ (ok s, client'))
  get_finality_status_cached_again before after t dt hash client s stale read soon =
      let client' = store_status t hash s client in
      let found : fresh_status (t + dt) (lookup hash client'.finality_cache) ≡ some s =
        ap (fresh_status (t + dt)) (lookup-store_status t hash s client)
        ∙ fresh_status_young (t + dt) (entry s t) (omega arith) in
      rw (cached_read before t hash client s stale read)
        (refl, cached_hit after (t + dt) hash client' s found)

  -- A call that does not find a fresh entry answers what the chain answers now. If that is an error, the
  -- client is as before; if it is a status, the cache holds it under the hash, and holds no entry that
  -- is thirty seconds old.
  pub get_finality_status_cached_miss :
      (chain : Chain) (t : ℕ) (hash : Hash) (client : SubstrateVerificationClient V F)
      → fresh_status t (lookup hash client.finality_cache) ≡ none
      → let (r, client') = get_finality_status_cached g frost chain t hash client in
        (r ≡ get_finality_status g frost chain client hash)
        × ((e : GrandpaFinalityVerificationError) → r ≡ err e → client' ≡ client)
        × ((s : FinalityStatus F)
            → r ≡ ok s
            → (lookup hash client'.finality_cache ≡ some (entry s t))
              × IsYoung (from_secs 30) t client'.finality_cache)
  get_finality_status_cached_miss chain t hash client stale =
      elim (Result-cases (get_finality_status g frost chain client hash)) [
        | inl (s, read) ↦
            rw (cached_read chain t hash client s stale read, read)
              (
                refl,
                λ e h. cc,
                λ s' h. (
                  lookup-store_status t hash s client ∙ cc h,
                  store_status-IsYoung t hash s client,
                ),
              )
        | inr (x, failed) ↦
            rw (cached_failed chain t hash client x stale failed, failed)
              (refl, λ e h. refl, λ s' h. cc)
      ]
