-- ===== src/Observer/Targets.antt =====
-- `WatchTarget::new`.
use frost_substrate.Prelude.{◌≤◌, ◌≡◌, ◌↔◌, Option, none, some, Bytes, length, arith, ok}
use frost_substrate.Observer.{WatchTarget, new_watch_target}

abbrev HashFits : Option Bytes → Type 0
HashFits none = Unit
HashFits (some h) = length h ≤ 64

-- Each field is within its `BoundedVec`.
pub record IsBounded (target : WatchTarget) : Type 0 where
  pub module_name : length target.module_name ≤ 32
  pub function_name : length target.function_name ≤ 32
  pub message_hash : HashFits target.message_hash
  pub target_chain : length target.target_chain ≤ 32

-- A watch target is made exactly when each of the four fields is within its bound, and it then holds the
-- four fields as they were given.
pub new_watch_target_iff :
    (module_name function_name : Bytes) (message_hash : Option Bytes) (target_chain : Bytes)
    (target : WatchTarget)
    → (new_watch_target module_name function_name message_hash target_chain ≡ ok target) ↔ (
        IsBounded target
        × (target ≡ record {
          module_name = module_name;
          function_name = function_name;
          message_hash = message_hash;
          target_chain = target_chain;
        }))
unfolding new_watch_target
new_watch_target_iff m f none c target = ground arith
new_watch_target_iff m f (some h) c target = ground arith
