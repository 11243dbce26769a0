-- ===== src/Finality/Client/Tasks.antt =====
-- src/finality/mod.rs 773-801: `get_finality_status_cached` in several tasks at once. A call looks into the
-- cache under the read lock, releases it, awaits the status, and takes the write lock to store it, so the
-- calls of other tasks and the changes of the authorities come in between.
use frost_substrate.Prelude.{ℕ, ◌+◌, ◌≤◌, ◌≡◌, ◌==◌, some, none, if◌then◌else◌, lookup, ok, err}
use frost_substrate.External.Chain.{Hash, Chain, AuthorityList}
use frost_substrate.External.Float.{Float}
use frost_substrate.External.Frost.{Frost}
use frost_substrate.External.Grandpa.{Grandpa}
use frost_substrate.Finality.Client.{
  SubstrateVerificationClient, FinalityStatus, handle_authority_set_update,
  update_authorities_from_runtime,
}
use frost_substrate.Finality.Client.Cache.{fresh_status, store_status}
use frost_substrate.Finality.Client.Status.{get_finality_status}
use frost_substrate.Finality.Errors.{GrandpaFinalityVerificationError}

-- Where a task stands in its call, with what it holds there.
pub data Phase (F : Type 0) : Type 0 where
  resting : Phase F
  asked missed : Hash → Phase F
  holding : Hash → FinalityStatus F → (read : ℕ) → Phase F
  answered : Hash → FinalityStatus F → (at : ℕ) → Phase F

-- The client and its tasks at one moment, in nanoseconds.
pub record Tasks (V F : Type 0) : Type 0 where
  pub now : ℕ
  pub client : SubstrateVerificationClient V F
  pub phase : ℕ → Phase F

abbrev pub in_phase : {V F : Type 0} → ℕ → ℕ → Phase F → Tasks V F → Tasks V F
in_phase later i p m = record m { now = later; phase = λ j. if i == j then p else m.phase j }

abbrev pub with_client :
    {V F : Type 0} → ℕ → SubstrateVerificationClient V F → Tasks V F → Tasks V F
with_client later client m = record m { now = later; client = client }

-- `world` is the chain as it is at each moment.
module _ {C V F : Type 0} ⦃fl : Float F⦄ (g : Grandpa V) (frost : Frost C) (world : ℕ → Chain) where
  -- What happens next, then or later. A task may ask at any point: its last call has then been dropped.
  pub data Step (m : Tasks V F) : Tasks V F → Type 0 where
    asks : (later i : ℕ) (hash : Hash) → m.now ≤ later → Step m (in_phase later i (asked hash) m)
    hits :
        (later i : ℕ) (hash : Hash) (s : FinalityStatus F)
        → m.now ≤ later
        → m.phase i ≡ asked hash
        → fresh_status later (lookup hash m.client.finality_cache) ≡ some s
        → Step m (in_phase later i (answered hash s later) m)
    misses :
        (later i : ℕ) (hash : Hash)
        → m.now ≤ later
        → m.phase i ≡ asked hash
        → fresh_status later (lookup hash m.client.finality_cache) ≡ none
        → Step m (in_phase later i (missed hash) m)
    fetches :
        (later i : ℕ) (hash : Hash) (s : FinalityStatus F)
        → m.now ≤ later
        → m.phase i ≡ missed hash
        → get_finality_status g frost (world later) m.client hash ≡ ok s
        → Step m (in_phase later i (holding hash s later) m)
    fails :
        (later i : ℕ) (hash : Hash) (e : GrandpaFinalityVerificationError)
        → m.now ≤ later
        → m.phase i ≡ missed hash
        → get_finality_status g frost (world later) m.client hash ≡ err e
        → Step m (in_phase later i resting m)
    stores :
        (later i : ℕ) (hash : Hash) (s : FinalityStatus F) (read : ℕ)
        → m.now ≤ later
        → m.phase i ≡ holding hash s read
        → Step m (
            with_client later
              (store_status later hash s m.client)
              (in_phase later i (answered hash s later) m))
    is_told :
        (later set_id : ℕ) (a : AuthorityList) (client : SubstrateVerificationClient V F)
        → m.now ≤ later
        → handle_authority_set_update g a set_id m.client ≡ ok client
        → Step m (with_client later client m)
    reads :
        (later : ℕ) (hash : Hash) (client : SubstrateVerificationClient V F)
        → m.now ≤ later
        → update_authorities_from_runtime g frost (world later) hash m.client ≡ ok client
        → Step m (with_client later client m)

  pub data Reached (start : Tasks V F) : Tasks V F → Type 0 where
    unchanged : Reached start start
    one_more : {m m' : Tasks V F} → Reached start m → Step m m' → Reached start m'

  -- Each status is stored so many nanoseconds after it was fetched, or sooner.
  abbrev pub IsPromptStep : ℕ → {m m' : Tasks V F} → Step m m' → Type 0
  IsPromptStep delay (stores later i hash s read le at) = later ≤ read + delay
  IsPromptStep delay (asks later i hash le) = Unit
  IsPromptStep delay (hits later i hash s le at fresh) = Unit
  IsPromptStep delay (misses later i hash le at stale) = Unit
  IsPromptStep delay (fetches later i hash s le at read) = Unit
  IsPromptStep delay (fails later i hash e le at failed) = Unit
  IsPromptStep delay (is_told later set_id a client le e) = Unit
  IsPromptStep delay (reads later hash client le e) = Unit

  abbrev pub IsPrompt : ℕ → {start m : Tasks V F} → Reached start m → Type 0
  IsPrompt delay unchanged = Unit
  IsPrompt delay (one_more r step) = IsPrompt delay r × IsPromptStep delay step

  -- In the run, the chain answered this status at that moment.
  pub record WasRead (start : Tasks V F) (past : ℕ) (hash : Hash) (s : FinalityStatus F)
      : Type 0 where
    pub before : Tasks V F
    pub reached : Reached start before
    pub read : get_finality_status g frost (world past) before.client hash ≡ ok s
