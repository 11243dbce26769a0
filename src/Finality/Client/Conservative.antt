-- ===== src/Finality/Client/Conservative.antt =====
-- A stale answer of the status cache never promises too much.
use frost_substrate.Prelude.{ℕ, ◌+◌, ◌≤◌, ◌≡◌, sym, ap, ◌∙◌, true, leb, [], arith}
use frost_substrate.External.Chain.{Hash, Header, Chain}
use frost_substrate.External.Float.{Float}
use frost_substrate.External.Frost.{Frost}
use frost_substrate.External.Grandpa.{Grandpa}
use frost_substrate.Finality.Client.{FinalityStatus}
use frost_substrate.Finality.Client.Decisions.{HasHeader, get_finality_status_iff}
use frost_substrate.Finality.Client.Races.{answered-WasRead}
use frost_substrate.Finality.Client.Tasks.{
  resting, answered, Tasks, Step, asks, hits, misses, fetches, fails, stores, is_told, reads,
  Reached, unchanged, one_more, IsPromptStep, IsPrompt,
}

-- Finality only moves on, and the header of a block at or below the finalized one stays.
pub record IsGrowing (world : ℕ → Chain) : Type 0 where
  pub finalized :
      (t u : ℕ) → t ≤ u → (world t).info.finalized_number ≤ (world u).info.finalized_number
  pub kept :
      (t u : ℕ) (hash : Hash) (header : Header)
      → t ≤ u
      → HasHeader (world t) hash header
      → header.number ≤ (world t).info.finalized_number
      → HasHeader (world u) hash header

module _ {C V F : Type 0} ⦃fl : Float F⦄ (g : Grandpa V) (frost : Frost C) (world : ℕ → Chain)
    (start : Tasks V F) where
  IsPromptStep-le :
      (d e : ℕ) {m m' : Tasks V F} (step : Step g frost world m m')
      → d ≤ e
      → IsPromptStep g frost world d step
      → IsPromptStep g frost world e step
  IsPromptStep-le d e (stores later i hash s read le at) more prompt = omega arith
  IsPromptStep-le d e (asks later i hash le) more prompt = tt
  IsPromptStep-le d e (hits later i hash s le at fresh) more prompt = tt
  IsPromptStep-le d e (misses later i hash le at stale) more prompt = tt
  IsPromptStep-le d e (fetches later i hash s le at read) more prompt = tt
  IsPromptStep-le d e (fails later i hash x le at failed) more prompt = tt
  IsPromptStep-le d e (is_told later set_id a client le x) more prompt = tt
  IsPromptStep-le d e (reads later hash client le x) more prompt = tt

  IsPrompt-le :
      (d e : ℕ) {m : Tasks V F} (r : Reached g frost world start m)
      → d ≤ e
      → IsPrompt g frost world d r
      → IsPrompt g frost world e r
  IsPrompt-le d e unchanged more prompt = tt
  IsPrompt-le d e (one_more r step) more (before, prompt) =
      (IsPrompt-le d e r more before, IsPromptStep-le d e step more prompt)

  -- Some time is enough for each status of a run to be stored.
  one_delay :
      {m m' : Tasks V F} (step : Step g frost world m m')
      → (d : ℕ) × IsPromptStep g frost world d step
  one_delay (stores later i hash s read le at) = (later, omega arith)
  one_delay (asks later i hash le) = (0, tt)
  one_delay (hits later i hash s le at fresh) = (0, tt)
  one_delay (misses later i hash le at stale) = (0, tt)
  one_delay (fetches later i hash s le at read) = (0, tt)
  one_delay (fails later i hash x le at failed) = (0, tt)
  one_delay (is_told later set_id a client le x) = (0, tt)
  one_delay (reads later hash client le x) = (0, tt)

  whole_delay :
      {m : Tasks V F} (r : Reached g frost world start m) → (d : ℕ) × IsPrompt g frost world d r
  whole_delay unchanged = (0, tt)
  whole_delay (one_more r step) =
      let (d, before) = whole_delay r in
      let (e, prompt) = one_delay step in
      (
        d + e,
        (
          IsPrompt-le d (d + e) r (omega arith) before,
          IsPromptStep-le e (d + e) step (omega arith) prompt,
        ),
      )

-- However old an answer of the cache is, it does not promise too much: calls may run in any number of tasks
-- and a status may be stored at any time after it was read. Let finality only move on, and the headers of
-- the blocks that it has passed stay. If the cache is empty and no task is at work at first, then for
-- each answer that calls a block finalized, the chain has the block at the moment of the answer, under
-- the number answered, and the finalized block is at least the answered confirmations above it.
pub answered_conservative :
    {C V F : Type 0} ⦃fl : Float F⦄ (g : Grandpa V) (frost : Frost C) (world : ℕ → Chain)
    (start m : Tasks V F)
    → IsGrowing world
    → start.client.finality_cache ≡ []
    → ((i : ℕ) → start.phase i ≡ resting)
    → Reached g frost world start m
    → (i at : ℕ) (hash : Hash) (s : FinalityStatus F) → m.phase i ≡ answered hash s at
    → s.is_finalized ≡ true
    → (header : Header) × HasHeader (world at) hash header
      × (s.block_number ≡ header.number)
      × (header.number + s.confirmations ≤ (world at).info.finalized_number)
answered_conservative g frost world start m growing empty quiet r i at hash s told final =
    let (delay, prompt) = whole_delay g frost world start r in
    let (past, before, young, read) =
      answered-WasRead g frost world start m delay empty quiet r prompt i at hash s told in
    let status =
      (get_finality_status_iff g frost (world past) read.before.client hash s).0 read.read in
    let header = status.header in
    let numbered = ap (λ (x : FinalityStatus _). x.block_number) status.status_eq in
    let counted = ap (λ (x : FinalityStatus _). x.confirmations) status.status_eq in
    let passed : leb header.number (world past).info.finalized_number ≡ true =
      sym (ap (λ (x : FinalityStatus _). x.is_finalized) status.status_eq) ∙ final in
    let below : header.number ≤ (world past).info.finalized_number = ground arith in
    let moved = growing.finalized past at before in
    (header, growing.kept past at hash header before status.found below, numbered, omega arith)
