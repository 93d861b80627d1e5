-- ===== src/GwStream/Delivery/Endpoints.antt =====
-- A device's call to a server that it names by its endpoints, up to the stream of that server:
-- GatewayApi::to_server (libs/gateway/local_port.cpp, libs/gateway/gw_stream.cpp,
-- libs/gateway/server_stream_manager.cpp).
use aether_gateway.Prelude.{ℕ, ◌≡◌, [], ◌∷◌, some}
use aether_gateway.Map.{find, nat_order}
use aether_gateway.Aether.{DataBuffer, ServerEndpoints}
use aether_gateway.Aether.Api.{Codec, to_server}
use aether_gateway.Aether.StateMachine.{StateMachine}
use aether_gateway.Aether.Servers.{Server, AetherServers}
use aether_gateway.Aether.BufferStream.{BufferStream}
use aether_gateway.LocalPort.Keys.{Key, key_order}
use aether_gateway.LocalPort.Routing.{call_key}
use aether_gateway.LocalPort.{LocalPort}
use aether_gateway.ServerStreams.{RequestState}
use aether_gateway.GwStream.Interface.{gateway_streams, written}
use aether_gateway.GwStream.Ownership.{W}
use aether_gateway.GwStream.{stream_of}

module _ (aether : AetherServers) (sm : StateMachine RequestState) (bs : BufferStream) where
  -- GwStream h is tied to the next stream of the manager, which is one of a server at these endpoints,
  -- and holds the data alone.
  pub record IsAt (h next : ℕ) (es : ServerEndpoints) (d : DataBuffer) (w : W aether sm bs)
      : Type 0 where
    pub server : Server
    pub tied : stream_of aether sm bs (find h w.gw_streams) ≡ some next
    pub made : find next w.manager.stream_server ≡ some server
    pub at : server.endpoints ≡ es.endpoints
    pub sent : written aether sm bs w h ≡ d ∷ []

  module _ (api : Codec) where
    open api use {pack_gateway}

    abbrev pub endpoints_key : ℕ → ℕ → ServerEndpoints → DataBuffer → Key
    endpoints_key device_id client_id es d =
        call_key (gateway_streams aether sm bs) api device_id (to_server client_id es d)
