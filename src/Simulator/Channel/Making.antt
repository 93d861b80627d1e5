-- ===== src/Simulator/Channel/Making.antt =====
-- How a channel of an access point leads to a transport: GenerateChannels and JoinAction
-- (simulator/sim-gateway/gw-sim-access-point.cpp), GwSimChannel and the taking of the built stream
-- (simulator/sim-gateway/gw-sim-channel.cpp). A server that a channel holds is alive.
use aether_gateway.Prelude.{ℕ, ◌≡◌, refl, All, List, [], ◌∷◌, Option, none, some}
use aether_gateway.Aether.{UpdateStatus}
use aether_gateway.Aether.StateMachine.{StateMachine}
use aether_gateway.Aether.Servers.{Server}
use aether_gateway.Simulator.Channel.{AccessPoint, BuildState, Build, new_build, GatewayTransport}

-- The transport properties of a channel, with the enumerators that its constructor sets.
pub data ConnectionType : Type 0 where
  connection_less : ConnectionType

pub data Reliability : Type 0 where
  unreliable : Reliability

pub record GwSimChannel : Type 0 where
  pub access_point : AccessPoint
  pub server : Server
  pub connection_type : ConnectionType
  pub reliability : Reliability
  pub rec_packet_size : ℕ
  pub max_packet_size : ℕ

unfoldable new_channel : AccessPoint → Server → GwSimChannel
new_channel ap server = record {
  access_point = ap;
  server = server;
  connection_type = connection_less;
  reliability = unreliable;
  rec_packet_size = 1024;
  max_packet_size = 1024;
}

unfoldable pub generate_channels : AccessPoint → Server → List GwSimChannel
unfolding new_channel
generate_channels ap server = new_channel ap server ∷ []

-- JoinAction::Update.
unfoldable update_join : UpdateStatus
update_join = UpdateStatus.result

module _ (sm : StateMachine BuildState) where
  unfoldable transport_builder : GwSimChannel → Build sm
  transport_builder channel = new_build sm (some channel.server)

  -- transport_stream(), which moves the stream out of the action.
  unfoldable take_transport : Build sm → Option GatewayTransport × Build sm
  take_transport a = (a.transport_stream, record a { transport_stream = none })

  -- The stream of a build is taken once: a second taking gives none and changes nothing.
  take_transport_once :
      (a : Build sm)
      → let (t, a') = take_transport a in
        (t ≡ a.transport_stream) × (take_transport a' ≡ (none, a'))
  unfolding take_transport
  take_transport_once a = (refl, refl)

  -- Every channel that an access point generates starts a build for the server that it was asked for.
  generate_channels-server :
      (ap : AccessPoint) (server : Server)
      → All (λ c. (transport_builder c).server ≡ some server) (generate_channels ap server)
  unfolding generate_channels transport_builder new_build
  generate_channels-server ap server = (refl, tt)
