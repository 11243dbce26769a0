-- ===== src/Observer/Matching.antt =====
-- src/observer/mod.rs: `matches_watch_target`, `event_matches_target`, `generic_event_match` and
-- `get_block_events`.
use frost_substrate.Prelude.{
  ℕ, Bool, true, false, not, ◌||◌, Option, none, some, List, [], ◌∷◌, Bytes, bytes_eq, length, take,
  leb, format, if◌then◌else◌, Result, ok, err, map_err, Fault, panic, lift, ◌>>=◌,
}
use frost_substrate.External.Chain.{Hash}
use frost_substrate.External.Frost.{BlockRef}
use frost_substrate.Observer.{ProtocolError, custom, WatchTarget}
use frost_substrate.RuntimeApi.{EventRecord, SsmpApi}

-- `windows(size)` of a slice, for a size that is not zero.
unfoldable pub windows : ℕ → Bytes → List Bytes
windows size [] = []
windows size (b ∷ bytes) =
    if leb size (length (b ∷ bytes)) then take size (b ∷ bytes) ∷ windows size bytes else []

-- `any(|window| window == name)`.
unfoldable pub any_eq : Bytes → List Bytes → Bool
any_eq name [] = false
any_eq name (w ∷ rest) = bytes_eq w name || any_eq name rest

-- `bytes.windows(name.len()).any(..)`: `windows` panics at size zero.
unfoldable pub has_window : {E : Type 0} → Bytes → Bytes → Result (Fault E) Bool
unfolding windows any_eq
has_window [] bytes = err panic
has_window (b ∷ name) bytes = ok (any_eq (b ∷ name) (windows (length (b ∷ name)) bytes))

module _ {C Event : Type 0} (encode : Event → Bytes) where
  abbrev pub has_hash : Option Bytes → Bytes → Result (Fault (ProtocolError C)) Bool
  has_hash none bytes = ok true
  has_hash (some expected_hash) bytes = has_window expected_hash bytes

  unfoldable pub generic_event_match : Event → WatchTarget → Result (Fault (ProtocolError C)) Bool
  generic_event_match event target = do
    let event_bytes = encode event
    contains_module ← has_window target.module_name event_bytes
    contains_function ← has_window target.function_name event_bytes
    if not contains_module || not contains_function
        then ok false
        else has_hash target.message_hash event_bytes

  -- Its only arm is the catch-all.
  abbrev pub event_matches_target : Event → WatchTarget → Result (Fault (ProtocolError C)) Bool
  event_matches_target = generic_event_match

  -- The loop of `matches_watch_target`, which returns at the first event that matches.
  unfoldable pub any_event_matches :
      List (EventRecord Event) → WatchTarget → Result (Fault (ProtocolError C)) Bool
  any_event_matches [] target = ok false
  any_event_matches (r ∷ rest) target = do
    matched ← event_matches_target r.event target
    if matched then ok true else any_event_matches rest target

  unfoldable pub matches_watch_target :
      SsmpApi Event → BlockRef C → WatchTarget → Result (Fault (ProtocolError C)) Bool
  unfolding any_event_matches
  matches_watch_target api block_ref target = do
    events ← lift (
        map_err (λ e. custom (format ("Failed to fetch events: " ∷ e ∷ [])))
          (api.events block_ref.hash))
    any_event_matches events target

unfoldable pub get_block_events :
    {C Event : Type 0} → SsmpApi Event → Hash → Result (ProtocolError C) (List (EventRecord Event))
get_block_events api block_hash =
    map_err (λ e. custom (format ("Failed to get events: " ∷ e ∷ []))) (api.events block_hash)
