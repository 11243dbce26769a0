-- ===== src/RuntimeApi.antt =====
-- src/runtime_api.rs: the runtime API that names the events of a block.
use frost_substrate.Prelude.{String, List, Result}
use frost_substrate.External.Chain.{Hash}

-- `frame_system::EventRecord`, with the field that the code reads.
pub record EventRecord (Event : Type 0) : Type 0 where
  pub event : Event

-- An error of the runtime API is its text.
pub record SsmpApi (Event : Type 0) : Type 0 where
  pub events : Hash → Result String (List (EventRecord Event))
