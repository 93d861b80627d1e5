-- ===== src/Simulator/Channel/Building.antt =====
-- The device of an access point, and a transport from the start of its build to the end
-- (simulator/sim-gateway/gw-sim-channel.cpp, simulator/sim-gateway/gw-sim-access-point.cpp).
use aether_gateway.Prelude.{ℕ, ◌≡◌, ◌<◌, ◌≢◌, ◌⊎◌, refl, true, Option, none, some}
use aether_gateway.Map.{find, nat_order}
use aether_gateway.Aether.StateMachine.{StateMachine}
use aether_gateway.Aether.Servers.{Server}
use aether_gateway.Simulator.DataBus.{DataBus}
use aether_gateway.Simulator.DataBus.Ids.{IsValid, reg_device_listener_lem}
use aether_gateway.Simulator.Device.{SimDevice, new_device}
use aether_gateway.Simulator.Channel.{
  BuildState, got_result, AccessPoint, gw_device, Build, new_build, GatewayTransport, to_endpoints,
  to_id, transport_for, on_joined,
}

-- The device of an access point, if it has one, is on the bus.
abbrev pub IsOnBus : Option SimDevice → DataBus → Type 0
IsOnBus none b = Unit
IsOnBus (some d) b = find d.device_id b.device_listeners ≡ some d.listener

new_device_lem :
    (pointer : ℕ) (b : DataBus)
    → IsValid b
    → b.next_device_id < 255
    → (b' : DataBus) × (new_device true pointer b
        ≡ some (record { listener = pointer; device_id = b.next_device_id }, b'))
      × (find b.next_device_id b'.device_listeners ≡ some pointer)
      × IsValid b'
unfolding new_device
new_device_lem pointer b v lt =
    let (b', e, _, found, _, v') = reg_device_listener_lem b pointer v lt in
    (b', rw (e, new_device), found, v')

-- On a valid bus, with the assertion on and below id 255, an access point whose device, if it has
-- one, is on the bus gives a device that is on the bus under its id; the bus stays valid, and
-- asking again gives the same device and changes nothing.
pub gw_device-IsOnBus :
    (point : AccessPoint) (b : DataBus)
    → IsValid b
    → b.next_device_id < 255
    → IsOnBus point.device b
    → (d : SimDevice) × (point' : AccessPoint) × (b' : DataBus) × (gw_device true point b
        ≡ some (d, point', b'))
      × (gw_device true point' b' ≡ some (d, point', b'))
      × IsOnBus (some d) b'
      × IsValid b'
unfolding gw_device
gw_device-IsOnBus point b v lt on = branch point.device on
  where
    branch :
        (o : Option SimDevice)
        → IsOnBus o b
        → (d : SimDevice) × (point' : AccessPoint) × (b' : DataBus) × (gw_device true
              (record point { device = o })
              b
            ≡ some (d, point', b'))
          × (gw_device true point' b' ≡ some (d, point', b'))
          × IsOnBus (some d) b'
          × IsValid b'
    branch (some d) on = (d, record point { device = some d }, b, refl, refl, on, v)
    branch none on =
        let (b', e, found, v') = new_device_lem point.device_pointer b v lt in
        let d : SimDevice = record {
          listener = point.device_pointer;
          device_id = b.next_device_id;
        } in
        (d, record point { device = some d }, b', rw (gw_device, e), refl, found, v')

-- A transport over the device: to the server's endpoints if it has no id, else to its id.
abbrev pub LeadsTo : Server → SimDevice → Option GatewayTransport → Type 0
LeadsTo server d o =
    ((server.server_id ≡ 0) × (o ≡ some (to_endpoints (record { endpoints = server.endpoints }) d)))
    ⊎ ((server.server_id ≢ 0) × (o ≡ some (to_id server.server_id d)))

module _ (sm : StateMachine BuildState) where
  open sm use {current, changed, acquire}

  abbrev resumed : Build sm → Build sm
  resumed a = record a { state = (acquire a.state).1 }

  -- A build that waits for its access point to join.
  abbrev waiting : Option Server → Build sm
  waiting server = record (resumed (new_build sm server)) { joining = true }

  -- The build once its transport is there.
  abbrev built : Server → SimDevice → Build sm
  built server d =
      let a = resumed (on_joined sm (waiting (some server))) in
      record a {
        transport_stream = some (transport_for sm server d);
        state = sm.set got_result a.state;
      }
