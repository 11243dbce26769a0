-- ===== src/Finality/Client/CacheEntries.antt =====
-- What holds of the entries of the status cache.
use frost_substrate.Prelude.{
  ℕ, ◌-◌, ◌<◌, ◌≡◌, refl, Option, none, some, List, [], ◌∷◌, All, insert-All, Bool-cases, ltb_iff,
  inl, inr,
}
use frost_substrate.External.Chain.{Hash}
use frost_substrate.Finality.Client.{SubstrateVerificationClient, FinalityStatus, CacheEntry}
use frost_substrate.Finality.Client.Cache.{is_younger, retain_younger, fresh_status, store_status}
use frost_substrate.Finality.Client.CacheLaws.{entry}
use frost_substrate.Finality.Config.{from_secs}

pub retain_younger-All :
    {F : Type 0} (Q : Hash × CacheEntry F → Type 0) (limit now : ℕ) (m : List (Hash × CacheEntry F))
    → All Q m
    → All Q (retain_younger limit now m)
unfolding retain_younger
retain_younger-All Q limit now [] all = tt
retain_younger-All Q limit now ((j, e) ∷ rest) all = elim (Bool-cases (is_younger limit now e)) [
  | inl kept ↦ rw kept (all.0, retain_younger-All Q limit now rest all.1)
  | inr gone ↦ rw gone (retain_younger-All Q limit now rest all.1)
]

pub store_status-All :
    {V F : Type 0} (Q : Hash × CacheEntry F → Type 0) (now : ℕ) (hash : Hash) (s : FinalityStatus F)
    (client : SubstrateVerificationClient V F)
    → Q (hash, entry s now)
    → All Q client.finality_cache
    → All Q (store_status now hash s client).finality_cache
unfolding store_status
store_status-All Q now hash s client new old =
    retain_younger-All Q (from_secs 30) now _
      (insert-All Q hash (entry s now) client.finality_cache new old)

module _ {F : Type 0} where
  -- An entry that is answered from is less than five seconds old.
  pub fresh_status-young :
      (now : ℕ) (o : Option (CacheEntry F)) (s : FinalityStatus F)
      → fresh_status now o ≡ some s
      → (e : CacheEntry F) × (o ≡ some e) × (now - e.timestamp < from_secs 5) × (e.status ≡ s)
  unfolding fresh_status
  fresh_status-young now none s h = absurd (cc)
  fresh_status-young now (some e) s h = elim (Bool-cases (is_younger (from_secs 5) now e)) [
    | inl young ↦ (e, refl, (ltb_iff _ _).0 young, cc (rw young at h))
    | inr old ↦ absurd (cc (rw old at h))
  ]
