-- ===== src/Simulator/EndToEnd.antt =====
-- A call of a device and the answer to it, across the bus, the local port and back
-- (simulator/sim-gateway, libs/gateway/local_port.cpp).
use aether_gateway.Prelude.{ℕ, ◌≡◌, refl, List, [], ◌∷◌, ◌++◌, some, ==_iff}
use aether_gateway.Map.{find, nat_order}
use aether_gateway.Aether.{DataBuffer}
use aether_gateway.Aether.Api.{Codec, GatewayCall, to_server_id, to_server}
use aether_gateway.LocalPort.Keys.{key_order, make_key}
use aether_gateway.LocalPort.Interface.{GwStreams}
use aether_gateway.LocalPort.Invariant.{IsValid}
use aether_gateway.LocalPort.Opening.{written_of}
use aether_gateway.LocalPort.Routing.{
  call_key, call_client, call_payload, input-delivers, on_out_data_lem, input-IsValid,
}
use aether_gateway.LocalPort.{LocalPort, StreamStore, input, on_out_data}
use aether_gateway.Simulator.DataBus.{
  DataBus, GatewayDelivery, publish_device_data, publish_gw_data,
}
use aether_gateway.Simulator.Device.{
  SimDevice, device_to_server_id, device_to_server, device_push_data, publish_outputs, deliver,
}

module _ (api : Codec) (g : GwStreams) where
  open g use {World, written}
  open api use {pack_gateway, pack_client, endpoints_hash}

  -- Either form of ToServer.
  abbrev pub device_call : SimDevice → GatewayCall → DataBus → List GatewayDelivery
  device_call device (to_server_id c s d) b = device_to_server_id api device c s d b
  device_call device (to_server c e d) b = device_to_server api device c e d b

  device_call_lem :
      (device : SimDevice) (c : GatewayCall) (b : DataBus)
      → device_call device c b ≡ publish_device_data device.device_id (pack_gateway c) b
  unfolding device_to_server_id device_to_server
  device_call_lem device (to_server_id c s d) b = refl
  device_call_lem device (to_server c e d) b = refl

  -- With the port alone on the gateways' side of the bus, a device's call is one input of the port.
  deliver_call :
      (device : SimDevice) (c : GatewayCall) (b : DataBus) (port : ℕ) (p : LocalPort) (w : World)
      → b.gateway_listeners ≡ port ∷ []
      → deliver api g port (device_call device c b) p w
        ≡ input g api device.device_id (pack_gateway c) p w
  unfolding deliver publish_device_data
  deliver_call device c b port p w e = rw (device_call_lem device c b, e, (==_iff port port).1 refl)

  published :
      (device : SimDevice) (b : DataBus) (packet : DataBuffer)
      → find device.device_id b.device_listeners ≡ some device.listener
      → publish_gw_data device.device_id packet b
        ≡ record { listener = device.listener; payload = packet } ∷ []
  unfolding publish_gw_data
  published device b packet e = rw (e, publish_gw_data)

  answer_packet :
      (device : SimDevice) (b : DataBus) (packet : DataBuffer)
      → find device.device_id b.device_listeners ≡ some device.listener
      → publish_outputs api (record { device_id = device.device_id; packet = packet } ∷ []) b
        ≡ record { listener = device.listener; payload = packet } ∷ []
  unfolding publish_outputs
  answer_packet device b packet e = rw (published device b packet e)

  -- A device that is on the bus calls a server, in either form, where a valid port is the only
  -- gateway listener. The data ends, last, in the stream that the gateway keeps for this device,
  -- client and server identity; and whatever that stream answers is pushed to this device and to no
  -- other, which reads it as one call of from_server for the calling client.
  pub call_and_answer :
      (device : SimDevice) (c : GatewayCall) (b : DataBus) (port : ℕ) (p : LocalPort) (w : World)
      (answer : DataBuffer)
      → IsValid g endpoints_hash p w
      → b.gateway_listeners ≡ port ∷ []
      → find device.device_id b.device_listeners ≡ some device.listener
      → let (p', w') = deliver api g port (device_call device c b) p w in
        let key = call_key g api device.device_id c in
        (st : StreamStore) × (packet : DataBuffer) × (find key p'.stream_store ≡ some st)
        × (written w' st.stream ≡ written_of g (find key p.stream_store) w ++ call_payload c ∷ [])
        × (publish_outputs api (on_out_data g api st.stream answer p' w').1 b
            ≡ record { listener = device.listener; payload = packet } ∷ [])
        × (device_push_data api packet
            ≡ record { client_id = call_client c; payload = answer } ∷ [])
  unfolding device_push_data make_key
  call_and_answer device c b port p w answer v gw on_bus =
      let q = deliver_call device c b port p w gw in
      let (st, found, _, wrote) = input-delivers g api device.device_id c p w v in
      let packet = pack_client (record { client_id = call_client c; payload = answer }) in
      let valid = input-IsValid g api device.device_id (pack_gateway c) p w v in
      let out =
        on_out_data_lem g api _ _ (call_key g api device.device_id c) st answer valid found in
      (
        st,
        packet,
        rw q found,
        rw q wrote,
        rw (q, out) (answer_packet device b packet on_bus),
        api.parse-pack_client _,
      )
