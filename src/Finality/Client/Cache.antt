-- ===== src/Finality/Client/Cache.antt =====
-- src/finality/mod.rs: `get_finality_status_cached`. The cache is an association list with one entry to
-- a hash, as in a `HashMap`. `now` is the time of the call, in nanoseconds.
use frost_substrate.Prelude.{
  lookup, insert, ℕ, ◌-◌, Bool, Option, none, some, List, [], ◌∷◌, ltb, if◌then◌else◌, Result, ok,
  err,
}
use frost_substrate.External.Chain.{Hash, Chain}
use frost_substrate.External.Float.{Float}
use frost_substrate.External.Frost.{Frost}
use frost_substrate.External.Grandpa.{Grandpa}
use frost_substrate.Finality.Client.{SubstrateVerificationClient, FinalityStatus, CacheEntry}
use frost_substrate.Finality.Client.Status.{get_finality_status}
use frost_substrate.Finality.Config.{from_secs}
use frost_substrate.Finality.Errors.{GrandpaFinalityVerificationError}

module _ {F : Type 0} where
  -- `timestamp.elapsed() < limit`.
  abbrev pub is_younger : ℕ → ℕ → CacheEntry F → Bool
  is_younger limit now e = ltb (now - e.timestamp) limit

  unfoldable pub retain_younger : ℕ → ℕ → List (Hash × CacheEntry F) → List (Hash × CacheEntry F)
  retain_younger limit now [] = []
  retain_younger limit now ((j, e) ∷ rest) =
      let kept = retain_younger limit now rest in
      if is_younger limit now e then (j, e) ∷ kept else kept

  -- The status of an entry that is less than five seconds old.
  unfoldable pub fresh_status : ℕ → Option (CacheEntry F) → Option (FinalityStatus F)
  fresh_status now none = none
  fresh_status now (some e) = if is_younger (from_secs 5) now e then some e.status else none

module _ {V F : Type 0} where
  unfoldable pub store_status :
      ℕ
      → Hash
      → FinalityStatus F
      → SubstrateVerificationClient V F
      → SubstrateVerificationClient V F
  unfolding insert retain_younger
  store_status now block_hash status client =
      let entry : CacheEntry F = record { status = status; timestamp = now } in
      record client {
        finality_cache =
            retain_younger (from_secs 30) now (insert block_hash entry client.finality_cache);
      }

module _ {C V F : Type 0} ⦃fl : Float F⦄ (g : Grandpa V) (frost : Frost C) (chain : Chain) where
  unfoldable pub get_finality_status_cached :
      ℕ
      → Hash
      → SubstrateVerificationClient V F
      → Result GrandpaFinalityVerificationError (FinalityStatus F) × SubstrateVerificationClient V F
  get_finality_status_cached now block_hash client =
      elim (fresh_status now (lookup block_hash client.finality_cache)) [
        | some status ↦ (ok status, client)
        | none ↦ elim (get_finality_status g frost chain client block_hash) [
          | err e ↦ (err e, client)
          | ok status ↦ (ok status, store_status now block_hash status client)
        ]
      ]
