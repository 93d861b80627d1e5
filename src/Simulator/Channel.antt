-- ===== src/Simulator/Channel.antt =====
-- GwSimTransportBuildAction, and the device of an access point, which is made on first use
-- (simulator/sim-gateway/gw-sim-channel.cpp, simulator/sim-gateway/gw-sim-access-point.cpp).
pub mod Building
pub mod Making
pub mod Adapter
use mathlib.Core.Option
use aether_gateway.Prelude.{ℕ, Bool, true, false, Option, none, some, ◌==◌, if◌then◌else◌}
use aether_gateway.Aether.{ServerEndpoints, UpdateStatus, pending, result, error}
use aether_gateway.Aether.StateMachine.{StateMachine}
use aether_gateway.Aether.Servers.{Server}
use aether_gateway.Simulator.DataBus.{DataBus}
use aether_gateway.Simulator.Device.{SimDevice, new_device}

-- GwSimTransportBuildAction::State.
pub data BuildState : Type 0 where
  join create_transport got_result got_error : BuildState

-- The two constructors of the library's GatewayTransport that the action calls.
pub data GatewayTransport : Type 0 where
  to_id : (server_id : ℕ) → SimDevice → GatewayTransport
  to_endpoints : ServerEndpoints → SimDevice → GatewayTransport

pub record AccessPoint : Type 0 where
  -- The pointer that its device has, or will have.
  pub device_pointer : ℕ
  pub device : Option SimDevice

-- gw_device(). `none`: the device's constructor fails an assertion.
unfoldable pub gw_device : Bool → AccessPoint → DataBus → Option (SimDevice × AccessPoint × DataBus)
gw_device asserts ap b = elim ap.device [
  | some d ↦ some (d, ap, b)
  | none ↦ elim (new_device asserts ap.device_pointer b) [
    | none ↦ none
    | some (d, b') ↦ some (d, record ap { device = some d }, b')
  ]
]

module _ (sm : StateMachine BuildState) where
  open sm use {start, changed, acquire, set}

  pub record Build : Type 0 where
    -- The view of the server: `none` once the server is gone.
    pub server : Option Server
    pub state : sm.M
    -- The action of Join has been started.
    pub joining : Bool
    pub transport_stream : Option GatewayTransport

  unfoldable pub new_build : Option Server → Build
  new_build server = record {
    server = server;
    state = start join;
    joining = false;
    transport_stream = none;
  }

  abbrev pub transport_for : Server → SimDevice → GatewayTransport
  transport_for server d =
      if server.server_id == 0
      then to_endpoints (record { endpoints = server.endpoints }) d
      else to_id server.server_id d

  abbrev pub with_transport :
      Build
      → Server
      → Option (SimDevice × AccessPoint × DataBus)
      → Option (Build × AccessPoint × DataBus)
  with_transport a server none = none
  with_transport a server (some (d, ap, b)) = some (
    record a { transport_stream = some (transport_for server d); state = set got_result a.state },
    ap,
    b,
  )

  -- CreateTransport. `none`: an assertion fails.
  unfoldable pub create :
      Bool → Build → AccessPoint → DataBus → Option (Build × AccessPoint × DataBus)
  unfolding gw_device
  create asserts a ap b = elim a.server [
    | none ↦ none
    | some server ↦ with_transport a server (gw_device asserts ap b)
  ]

  abbrev pub still_pending :
      Option (Build × AccessPoint × DataBus) → Option (UpdateStatus × Build × AccessPoint × DataBus)
  still_pending none = none
  still_pending (some (a, ap, b)) = some (pending, a, ap, b)

  unfoldable pub build_on_state :
      Bool
      → BuildState
      → Build
      → AccessPoint
      → DataBus
      → Option (UpdateStatus × Build × AccessPoint × DataBus)
  unfolding create
  build_on_state asserts join a ap b = some (pending, record a { joining = true }, ap, b)
  build_on_state asserts create_transport a ap b = still_pending (create asserts a ap b)
  build_on_state asserts got_result a ap b = some (result, a, ap, b)
  build_on_state asserts got_error a ap b = some (error, a, ap, b)

  unfoldable pub update_build :
      Bool → Build → AccessPoint → DataBus → Option (UpdateStatus × Build × AccessPoint × DataBus)
  unfolding build_on_state
  update_build asserts a ap b =
      if changed a.state
      then (let (s, st) = acquire a.state in
          build_on_state asserts s (record a { state = st }) ap b)
      else some (pending, a, ap, b)

  -- The handlers of Join.
  unfoldable pub on_joined : Build → Build
  on_joined a = record a { state = set create_transport a.state }

  unfoldable pub on_join_error : Build → Build
  on_join_error a = record a { state = set got_error a.state }
