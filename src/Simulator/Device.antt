-- ===== src/Simulator/Device.antt =====
-- class GwSimDevice and class GwSimDevicePort (simulator/sim-gateway/gw-sim-device.h,
-- gw-sim-device.cpp, gw-sim-device-port.h, gw-sim-device-port.cpp): the two ends of the data bus.
use aether_gateway.Prelude.{ℕ, Bool, List, [], ◌∷◌, ◌++◌, Option, none, some, if◌then◌else◌, ◌==◌}
use aether_gateway.Aether.{DataBuffer, ServerEndpoints}
use aether_gateway.Aether.Api.{Codec, to_server_id, to_server, ClientCall}
use aether_gateway.LocalPort.Interface.{GwStreams}
use aether_gateway.LocalPort.{LocalPort, Output, input}
use aether_gateway.Simulator.DataBus.{
  DataBus, GatewayDelivery, DeviceDelivery, reg_device_listener, remove_device_listener,
  reg_gateway_listener, remove_gateway_listener, publish_device_data, publish_gw_data,
}

-- A device, by the pointer that it registers and the id that it got.
pub record SimDevice : Type 0 where
  pub listener : ℕ
  pub device_id : ℕ

-- The constructor; `none` is the failed assertion of GetDeviceId.
unfoldable pub new_device : Bool → ℕ → DataBus → Option (SimDevice × DataBus)
new_device asserts listener b = elim (reg_device_listener asserts listener b) [
  | none ↦ none
  | some (id, b') ↦ some (record { listener = listener; device_id = id }, b')
]

-- The destructor.
unfoldable pub delete_device : SimDevice → DataBus → DataBus
delete_device device b = remove_device_listener device.device_id b

unfoldable pub new_device_port : ℕ → DataBus → DataBus
new_device_port listener b = reg_gateway_listener listener b

unfoldable pub delete_device_port : ℕ → DataBus → DataBus
delete_device_port listener b = remove_gateway_listener listener b

module _ (api : Codec) where
  open api use {pack_gateway, parse_client}

  -- ToServer(client_id, server_id, data): what the bus pushes to the gateways.
  unfoldable pub device_to_server_id :
      SimDevice → ℕ → ℕ → DataBuffer → DataBus → List GatewayDelivery
  device_to_server_id device client_id server_id payload b =
      publish_device_data device.device_id (pack_gateway (to_server_id client_id server_id payload))
        b

  -- ToServer(client_id, server_endpoints, data).
  unfoldable pub device_to_server :
      SimDevice → ℕ → ServerEndpoints → DataBuffer → DataBus → List GatewayDelivery
  device_to_server device client_id endpoints payload b =
      publish_device_data device.device_id (pack_gateway (to_server client_id endpoints payload)) b

  -- PushData of the device: the calls of from_server that its event reports.
  unfoldable pub device_push_data : DataBuffer → List ClientCall
  device_push_data packet = parse_client packet

  -- The output event of the local port goes to the bus.
  unfoldable pub publish_outputs : List Output → DataBus → List DeviceDelivery
  publish_outputs [] b = []
  publish_outputs (o ∷ os) b = publish_gw_data o.device_id o.packet b ++ publish_outputs os b

  module _ (g : GwStreams) where
    open g use {World}

    -- PushData of the device port.
    unfoldable pub port_push_data : ℕ → DataBuffer → LocalPort → World → LocalPort × World
    port_push_data device_id packet p w = input g api device_id packet p w

    -- What the bus pushes reaches the port where the listener is the port's.
    unfoldable pub deliver :
        (port : ℕ) → List GatewayDelivery → LocalPort → World → LocalPort × World
    unfolding port_push_data
    deliver port [] p w = (p, w)
    deliver port (d ∷ ds) p w =
        let (p', w') =
          if d.listener == port then port_push_data d.device_id d.payload p w else (p, w) in
        deliver port ds p' w'
