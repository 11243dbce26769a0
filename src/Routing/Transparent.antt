-- ===== src/Routing/Transparent.antt =====
-- The adapter is transparent: whoever calls it sees the router.
use frost_substrate.Prelude.{◌≡◌, refl, String, List, [], ◌∷◌, Result}
use frost_substrate.Routing.{
  EnhancedRouter, RouterAdapter, new_adapter, adapter_route_message, adapter_get_route,
  adapter_update_topology, adapter_get_metrics,
}

-- A call of a router, and an answer.
pub data Call (M C T : Type 0) : Type 0 where
  routes : M → Call M C T
  finds : C → C → Call M C T
  rearranges : T → Call M C T
  measures : Call M C T

pub data Answer (C S K : Type 0) : Type 0 where
  routed : Result String S → Answer C S K
  found : Result String (List C) → Answer C S K
  rearranged : Result String (Unit {0}) → Answer C S K
  measured : Result String K → Answer C S K

abbrev answer_with : {A B R : Type 0} → (A → B) → A × R → B × R
answer_with f (a, r) = (f a, r)

-- Calls one after another, with their answers in their order.
unfoldable pub run_calls : {A B R : Type 0} → (A → R → B × R) → List A → R → List B × R
run_calls method [] r = ([], r)
run_calls method (c ∷ rest) r =
    let (b, r') = method c r in let (bs, r'') = run_calls method rest r' in (b ∷ bs, r'')

module _ {R M C S T K : Type 0} (router : EnhancedRouter R M C S T K) where
  abbrev pub call_router : Call M C T → R → Answer C S K × R
  call_router (routes m) r = answer_with routed (router.route_message m r)
  call_router (finds a b) r = answer_with found (router.get_route a b r)
  call_router (rearranges t) r = answer_with rearranged (router.update_topology t r)
  call_router measures r = answer_with measured (router.get_metrics r)

  abbrev pub call_adapter : Call M C T → RouterAdapter R → Answer C S K × RouterAdapter R
  call_adapter (routes m) a = answer_with routed (adapter_route_message router m a)
  call_adapter (finds b c) a = answer_with found (adapter_get_route router b c a)
  call_adapter (rearranges t) a = answer_with rearranged (adapter_update_topology router t a)
  call_adapter measures a = answer_with measured (adapter_get_metrics router a)

  call_adapter-call_router :
      (c : Call M C T) (a : RouterAdapter R)
      → call_adapter c a ≡ ((call_router c a.inner).0, record { inner = (call_router c a.inner).1 })
  unfolding adapter_route_message adapter_get_route adapter_update_topology adapter_get_metrics
  call_adapter-call_router (routes m) a = refl
  call_adapter-call_router (finds b c) a = refl
  call_adapter-call_router (rearranges t) a = refl
  call_adapter-call_router measures a = refl

  -- Every sequence of calls of a new adapter gives the answers that the router behind it gives, and leaves
  -- the adapter over the state that the router is left in.
  pub run_calls-call_adapter :
      (calls : List (Call M C T)) (r : R)
      → run_calls call_adapter calls (new_adapter r)
        ≡ ((run_calls call_router calls r).0, new_adapter (run_calls call_router calls r).1)
  unfolding run_calls new_adapter
  run_calls-call_adapter [] r = refl
  run_calls-call_adapter (c ∷ rest) r =
      let one = call_adapter-call_router c (new_adapter r) in
      let others = run_calls-call_adapter rest (call_router c r).1 in rw (one, others)
