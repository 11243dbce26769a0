-- ===== src/Finality/Client/Races.antt =====
-- How old an answer of the status cache can be when calls run side by side.
use frost_substrate.Prelude.{
  ℕ, ◌+◌, ◌≤◌, ◌<◌, ◌≡◌, ◌==◌, some, List, [], ◌∷◌, All, arith, Bool-cases, inl, inr, lookup,
  lookup-All,
}
use native.Mathlib.Nat.{le_trans, le_refl}
use frost_substrate.External.Chain.{Hash, Chain}
use frost_substrate.External.Float.{Float}
use frost_substrate.External.Frost.{Frost}
use frost_substrate.External.Grandpa.{Grandpa}
use frost_substrate.Finality.Client.{SubstrateVerificationClient, FinalityStatus, CacheEntry}
use frost_substrate.Finality.Client.Cache.{fresh_status}
use frost_substrate.Finality.Client.CacheEntries.{store_status-All, fresh_status-young}
use frost_substrate.Finality.Client.Tasks.{
  Phase, resting, asked, missed, holding, answered, Tasks, in_phase, with_client, asks, hits,
  misses, fetches, fails, stores, is_told, reads, Reached, unchanged, one_more, IsPrompt, WasRead,
}
use frost_substrate.Finality.Client.Updates.{
  handle_authority_set_update-finality_cache, update_authorities_from_runtime-finality_cache,
}
use frost_substrate.Finality.Config.{from_secs}

module _ {C V F : Type 0} ⦃fl : Float F⦄ (g : Grandpa V) (frost : Frost C) (world : ℕ → Chain)
    (start : Tasks V F) (delay : ℕ) where
  -- What is cached was read before, and stored promptly.
  abbrev IsBacked : ℕ → Hash × CacheEntry F → Type 0
  IsBacked now p =
      (p.1.timestamp ≤ now)
      × ((past : ℕ) × (past ≤ p.1.timestamp)
          × (p.1.timestamp ≤ past + delay)
          × WasRead g frost world start past p.0 p.1.status)

  -- What a task holds was read before, and what it has answered was read not long before that.
  abbrev IsRead : ℕ → Phase F → Type 0
  IsRead now (holding hash s read) = (read ≤ now) × WasRead g frost world start read hash s
  IsRead now (answered hash s at) =
      (past : ℕ) × (past ≤ at)
      × (at < past + delay + from_secs 5)
      × WasRead g frost world start past hash s
  IsRead now resting = Unit
  IsRead now (asked hash) = Unit
  IsRead now (missed hash) = Unit

  record IsSound (m : Tasks V F) : Type 0 where
    pub backed : All (IsBacked m.now) m.client.finality_cache
    pub read : (i : ℕ) → IsRead m.now (m.phase i)

  IsBacked-later :
      (now later : ℕ) (cache : List (Hash × CacheEntry F))
      → now ≤ later
      → All (IsBacked now) cache
      → All (IsBacked later) cache
  IsBacked-later now later [] le all = tt
  IsBacked-later now later (p ∷ rest) le all =
      ((le_trans all.0.0 le, all.0.1), IsBacked-later now later rest le all.1)

  IsRead-later : (now later : ℕ) (p : Phase F) → now ≤ later → IsRead now p → IsRead later p
  IsRead-later now later (holding hash s read) le h = (le_trans h.0 le, h.1)
  IsRead-later now later (answered hash s at) le h = h
  IsRead-later now later resting le h = tt
  IsRead-later now later (asked hash) le h = tt
  IsRead-later now later (missed hash) le h = tt

  -- Only task `i` goes on.
  in_phase-IsSound :
      (later i : ℕ) (p : Phase F) (m : Tasks V F)
      → m.now ≤ later
      → IsRead later p
      → IsSound m
      → IsSound (in_phase later i p m)
  in_phase-IsSound later i p m le new s = record {
    backed = IsBacked-later m.now later m.client.finality_cache le s.backed;
    read = λ j. elim (Bool-cases (i == j)) [
      | inl same ↦ rw same new
      | inr other ↦ rw other (IsRead-later m.now later (m.phase j) le (s.read j))
    ];
  }

  -- Only the client changes, and its cache stays.
  with_client-IsSound :
      (later : ℕ) (client : SubstrateVerificationClient V F) (m : Tasks V F)
      → m.now ≤ later
      → client.finality_cache ≡ m.client.finality_cache
      → IsSound m
      → IsSound (with_client later client m)
  with_client-IsSound later client m le same s = record {
    backed = rw same (IsBacked-later m.now later m.client.finality_cache le s.backed);
    read = λ j. IsRead-later m.now later (m.phase j) le (s.read j);
  }

  -- An answer from the cache.
  hit-IsRead :
      (later : ℕ) (hash : Hash) (s : FinalityStatus F) (m : Tasks V F)
      → m.now ≤ later
      → fresh_status later (lookup hash m.client.finality_cache) ≡ some s
      → IsSound m
      → IsRead later (answered hash s later)
  hit-IsRead later hash s m le fresh sound =
      let (e, found, young, status) = fresh_status-young later _ s fresh in
      let (not_after, (past, older, prompt, read)) =
        lookup-All (IsBacked m.now) hash e m.client.finality_cache found sound.backed in
      (past, omega arith, omega arith, rw status at read)

  held :
      (i : ℕ) (m : Tasks V F) (hash : Hash) (s : FinalityStatus F) (read : ℕ)
      → m.phase i ≡ holding hash s read
      → IsSound m
      → (read ≤ m.now) × WasRead g frost world start read hash s
  held i m hash s read at sound = rw at at (sound.read i)

  Reached-IsSound :
      start.client.finality_cache ≡ []
      → ((i : ℕ) → start.phase i ≡ resting)
      → {m : Tasks V F} (r : Reached g frost world start m) → IsPrompt g frost world delay r
      → IsSound m
  Reached-IsSound empty quiet unchanged prompt = record {
    backed = rw empty tt;
    read = λ i. rw (quiet i) tt;
  }
  Reached-IsSound empty quiet (one_more {m} r (asks later i hash le)) prompt =
      in_phase-IsSound later i (asked hash) m le tt (Reached-IsSound empty quiet r prompt.0)
  Reached-IsSound empty quiet (one_more {m} r (hits later i hash s le at fresh)) prompt =
      let sound = Reached-IsSound empty quiet r prompt.0 in
      in_phase-IsSound later i (answered hash s later) m le
        (hit-IsRead later hash s m le fresh sound) sound
  Reached-IsSound empty quiet (one_more {m} r (misses later i hash le at stale)) prompt =
      in_phase-IsSound later i (missed hash) m le tt (Reached-IsSound empty quiet r prompt.0)
  Reached-IsSound empty quiet (one_more {m} r (fetches later i hash s le at read)) prompt =
      in_phase-IsSound later i (holding hash s later) m le
        (le_refl later, record { before = m; reached = r; read = read })
        (Reached-IsSound empty quiet r prompt.0)
  Reached-IsSound empty quiet (one_more {m} r (fails later i hash e le at failed)) prompt =
      in_phase-IsSound later i resting m le tt (Reached-IsSound empty quiet r prompt.0)
  Reached-IsSound empty quiet (one_more {m} r (stores later i hash s read le at)) prompt =
      let sound = Reached-IsSound empty quiet r prompt.0 in
      let (earlier, was_read) = held i m hash s read at sound in
      let soon = prompt.1 in
      let told =
        in_phase-IsSound later i (answered hash s later) m le
          (read, omega arith, omega arith, was_read) sound in
      record {
        backed =
            store_status-All (IsBacked later) later hash s m.client
              (le_refl later, (read, omega arith, omega arith, was_read)) told.backed;
        read = told.read;
      }
  Reached-IsSound empty quiet (one_more {m} r (is_told later set_id a client le e)) prompt =
      with_client-IsSound later client m le
        (handle_authority_set_update-finality_cache g a set_id m.client client e)
        (Reached-IsSound empty quiet r prompt.0)
  Reached-IsSound empty quiet (one_more {m} r (reads later hash client le e)) prompt =
      with_client-IsSound later client m le
        (update_authorities_from_runtime-finality_cache g frost (world later) hash m.client client
          e)
        (Reached-IsSound empty quiet r prompt.0)

-- Calls in any number of tasks, whatever comes between looking into the cache, reading the chain and
-- storing the status, and whatever set changes come: if the cache is empty and no task is at work at
-- first, and each status is stored within `delay` of its reading, then each answer is what the chain
-- answered, to a client that the run went through, less than five seconds and `delay` before.
pub answered-WasRead :
    {C V F : Type 0} ⦃fl : Float F⦄ (g : Grandpa V) (frost : Frost C) (world : ℕ → Chain)
    (start m : Tasks V F) (delay : ℕ)
    → start.client.finality_cache ≡ []
    → ((i : ℕ) → start.phase i ≡ resting)
    → (r : Reached g frost world start m) → IsPrompt g frost world delay r
    → (i at : ℕ) (hash : Hash) (s : FinalityStatus F) → m.phase i ≡ answered hash s at
    → (past : ℕ) × (past ≤ at)
      × (at < past + delay + from_secs 5)
      × WasRead g frost world start past hash s
answered-WasRead g frost world start m delay empty quiet r prompt i at hash s told =
    let sound = Reached-IsSound g frost world start delay empty quiet r prompt in
    rw told at (sound.read i)
