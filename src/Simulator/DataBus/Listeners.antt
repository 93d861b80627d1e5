-- ===== src/Simulator/DataBus/Listeners.antt =====
-- Who hears what: gateway listeners in order, and the one device of an id (gw-sim-data-bus.cpp).
use aether_gateway.Prelude.{ℕ, ◌≡◌, ◌≢◌, refl, ap, List, [], ◌∷◌, ◌++◌, arith, ==_iff, All, map}
use aether_gateway.Map.{nat_order}
use aether_gateway.Map.Laws.{find-erase, find-erase_other, equiv_refl}
use aether_gateway.Aether.{DataBuffer}
use aether_gateway.Simulator.DataBus.{
  DataBus, GatewayDelivery, publish_device_data, publish_gw_data, push_each, remove_device_listener,
  reg_gateway_listener, remove_gateway_listener, erase_first,
}

push_each-All :
    (gws : List ℕ) (from_device : ℕ) (payload : DataBuffer)
    → (map (λ (d : GatewayDelivery). d.listener) (push_each gws from_device payload) ≡ gws)
      × All
          (λ d. (d.device_id ≡ from_device) × (d.payload ≡ payload))
          (push_each gws from_device payload)
unfolding push_each
push_each-All [] from_device payload = (refl, tt)
push_each-All (gw ∷ gws) from_device payload =
    let (ls, ds) = push_each-All gws from_device payload in
    (ap (λ l. gw ∷ l) ls, ((refl, refl), ds))

-- What a device publishes is pushed once for each registration of a gateway listener, in the order
-- of registration, with the device's id and the data unchanged.
pub publish_device_data-All :
    (b : DataBus) (from_device : ℕ) (payload : DataBuffer)
    → (map (λ (d : GatewayDelivery). d.listener) (publish_device_data from_device payload b)
        ≡ b.gateway_listeners)
      × All
          (λ d. (d.device_id ≡ from_device) × (d.payload ≡ payload))
          (publish_device_data from_device payload b)
unfolding publish_device_data
publish_device_data-All b from_device payload =
    push_each-All b.gateway_listeners from_device payload

erase_first-append : (a : ℕ) (xs : List ℕ) → All (λ x. x ≢ a) xs → erase_first a (xs ++ a ∷ []) ≡ xs
unfolding erase_first
erase_first-append a [] h = rw ((==_iff a a).1 refl)
erase_first-append a (x ∷ xs) h = ground (arith, erase_first-append a xs h.1)

-- A gateway listener that registers and is removed again leaves the bus as it was, if it was not
-- registered before.
pub remove-reg_gateway_listener :
    (b : DataBus) (listener : ℕ)
    → All (λ l. l ≢ listener) b.gateway_listeners
    → remove_gateway_listener listener (reg_gateway_listener listener b) ≡ b
unfolding remove_gateway_listener reg_gateway_listener
remove-reg_gateway_listener b listener h =
    ap (λ ls. record b { gateway_listeners = ls })
      (erase_first-append listener b.gateway_listeners h)

-- Nothing is pushed to a device that was removed, and another device hears as before.
pub publish_gw_data-remove :
    (b : DataBus) (device_id other : ℕ) (payload : DataBuffer)
    → device_id ≢ other
    → (publish_gw_data device_id payload (remove_device_listener device_id b) ≡ [])
      × (publish_gw_data other payload (remove_device_listener device_id b)
          ≡ publish_gw_data other payload b)
unfolding publish_gw_data remove_device_listener
publish_gw_data-remove b device_id other payload ne = (
  ground (arith, find-erase device_id device_id b.device_listeners, equiv_refl device_id),
  rw (find-erase_other other device_id b.device_listeners ne, publish_gw_data),
)
