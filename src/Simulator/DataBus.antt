-- ===== src/Simulator/DataBus.antt =====
-- class GwSimDataBus (simulator/sim-gateway/gw-sim-data-bus.h, gw-sim-data-bus.cpp). A listener is a
-- pointer, so a number; a delivery is a call of its PushData.
pub mod Listeners
pub mod Ids
pub mod Histories
use aether_gateway.Prelude.{
  ℕ, ◌+◌, ◌%◌, Bool, true, false, ◌&&◌, not, List, [], ◌∷◌, ◌++◌, Option, none, some, ltb, ◌==◌,
  if◌then◌else◌,
}
use aether_gateway.Map.{Map, find, emplace, erase, nat_order}
use aether_gateway.Aether.{DataBuffer}

pub record DataBus : Type 0 where
  pub next_device_id : ℕ  -- uint8
  pub device_listeners : Map ℕ ℕ
  pub gateway_listeners : List ℕ

unfoldable pub new_data_bus : DataBus
new_data_bus = record { next_device_id = 1; device_listeners = []; gateway_listeners = [] }

-- PushData(device_id, data) of a gateway listener.
pub record GatewayDelivery : Type 0 where
  pub listener : ℕ
  pub device_id : ℕ
  pub payload : DataBuffer

-- PushData(data) of a device listener.
pub record DeviceDelivery : Type 0 where
  pub listener : ℕ
  pub payload : DataBuffer

unfoldable pub push_each : List ℕ → ℕ → DataBuffer → List GatewayDelivery
push_each [] from_device payload = []
push_each (gw ∷ gws) from_device payload =
    record { listener = gw; device_id = from_device; payload = payload }
    ∷ push_each gws from_device payload

unfoldable pub publish_device_data : ℕ → DataBuffer → DataBus → List GatewayDelivery
unfolding push_each
publish_device_data from_device payload b = push_each b.gateway_listeners from_device payload

unfoldable pub publish_gw_data : ℕ → DataBuffer → DataBus → List DeviceDelivery
publish_gw_data to_device payload b = elim (find to_device b.device_listeners) [
  | none ↦ []
  | some listener ↦ record { listener = listener; payload = payload } ∷ []
]

-- The id and the bus after it; `none` is a failed assertion. `asserts` is false in a build with
-- NDEBUG, such as the Release build that CMakeLists.txt defaults to.
unfoldable pub get_device_id : Bool → DataBus → Option (ℕ × DataBus)
get_device_id asserts b =
    let id = b.next_device_id in
    if asserts && not (ltb id 255)
    then none
    else some (id, record b { next_device_id = (id + 1) % 256 })

unfoldable pub reg_device_listener : Bool → ℕ → DataBus → Option (ℕ × DataBus)
unfolding get_device_id
reg_device_listener asserts listener b = elim (get_device_id asserts b) [
  | none ↦ none
  | some (id, b') ↦
      some (id, record b' { device_listeners = emplace id listener b'.device_listeners })
]

unfoldable pub remove_device_listener : ℕ → DataBus → DataBus
remove_device_listener device_id b = record b {
  device_listeners = erase device_id b.device_listeners;
}

unfoldable pub reg_gateway_listener : ℕ → DataBus → DataBus
reg_gateway_listener listener b = record b {
  gateway_listeners = b.gateway_listeners ++ listener ∷ [];
}

-- std::find and erase: the first occurrence goes.
unfoldable pub erase_first : ℕ → List ℕ → List ℕ
erase_first a [] = []
erase_first a (x ∷ xs) = if x == a then xs else x ∷ erase_first a xs

unfoldable pub remove_gateway_listener : ℕ → DataBus → DataBus
unfolding erase_first
remove_gateway_listener listener b = record b {
  gateway_listeners = erase_first listener b.gateway_listeners;
}
