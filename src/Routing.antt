-- ===== src/Routing.antt =====
-- src/routing/mod.rs: `RouterAdapter`, which puts frost_protocol's router behind a lock.
pub mod Transparent
use frost_substrate.Prelude.{◌≡◌, refl, ap, ◌∙◌, String, List, [], ◌∷◌, Result, ok, err, map_err}
use frost_substrate.Observer.{MessageRouter}

-- `EnhancedRouter<N>` of frost_protocol with the methods of its trait: states `R`, messages `M`, chain ids
-- `C`, statuses `S`, topologies `T` and metrics `K`. An error is its text.
pub record EnhancedRouter (R M C S T K : Type 0) : Type 0 where
  pub route_message : M → R → Result String S × R
  pub get_route : C → C → R → Result String (List C) × R
  pub update_topology : T → R → Result String (Unit {0}) × R
  pub get_metrics : R → Result String K × R

-- `Arc<RwLock<..>>`. A tokio lock waits and does not fail.
pub record RouterAdapter (R : Type 0) : Type 0 where
  pub inner : R

module _ {R : Type 0} where
  unfoldable pub new_adapter : R → RouterAdapter R
  new_adapter inner = record { inner = inner }

  -- A method under the lock's guard.
  abbrev locked : {A : Type 0} → (R → A × R) → RouterAdapter R → A × RouterAdapter R
  locked method adapter = let (a, inner) = method adapter.inner in (a, record { inner = inner })

module _ {R M C S T K : Type 0} (router : EnhancedRouter R M C S T K) where
  unfoldable pub adapter_route_message : M → RouterAdapter R → Result String S × RouterAdapter R
  adapter_route_message message = locked (router.route_message message)

  unfoldable pub adapter_get_route :
      C → C → RouterAdapter R → Result String (List C) × RouterAdapter R
  adapter_get_route source target = locked (router.get_route source target)

  unfoldable pub adapter_update_topology :
      T → RouterAdapter R → Result String (Unit {0}) × RouterAdapter R
  adapter_update_topology topology = locked (router.update_topology topology)

  unfoldable pub adapter_get_metrics : RouterAdapter R → Result String K × RouterAdapter R
  adapter_get_metrics = locked router.get_metrics
