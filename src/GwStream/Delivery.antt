-- ===== src/GwStream/Delivery.antt =====
-- From a device's call to the stream of its server: LocalPort, GwStream and ServerStreamManager
-- together (libs/gateway/local_port.cpp, libs/gateway/gw_stream.cpp,
-- libs/gateway/server_stream_manager.cpp).
pub mod Endpoints
use aether_gateway.Prelude.{ℕ, ◌≡◌, ◌∙◌, sym, ap, [], ◌∷◌, none, some}
use aether_gateway.Map.{find, nat_order}
use aether_gateway.Aether.{DataBuffer}
use aether_gateway.Aether.Api.{Codec, GatewayCall, to_server_id}
use aether_gateway.Aether.StateMachine.{StateMachine}
use aether_gateway.Aether.Servers.{AetherServers}
use aether_gateway.Aether.BufferStream.{BufferStream}
use aether_gateway.LocalPort.Keys.{ServeKind, Key, key_order}
use aether_gateway.LocalPort.Opening.{open_stream-Opened, open_stream_new}
use aether_gateway.LocalPort.Routing.{call_key, call_server, call_payload, input-pack}
use aether_gateway.LocalPort.{LocalPort, StreamStore, input, add_stream}
use aether_gateway.ServerStreams.{RequestState}
use aether_gateway.ServerStreams.Invariant.{Serves}
use aether_gateway.GwStream.Interface.{gateway_streams, written}
use aether_gateway.GwStream.Ownership.{W}
use aether_gateway.GwStream.Answered.{Answered}
use aether_gateway.GwStream.{new_gw_stream, write, stream_of}

module _ (aether : AetherServers) (sm : StateMachine RequestState) (bs : BufferStream)
    (api : Codec) where
  open api use {pack_gateway}

  -- The key of a call by id.
  abbrev pub first_key : ℕ → ℕ → ℕ → DataBuffer → Key
  first_key device_id client_id id d =
      call_key (gateway_streams aether sm bs) api device_id (to_server_id client_id id d)

  -- The first call of a client to a server: a new GwStream stands under the key, with the call's data.
  pub record IsFirst (key : Key) (kind : ServeKind) (d : DataBuffer) (w : W aether sm bs)
      (st : StreamStore) (r : LocalPort × W aether sm bs) : Type 0 where
    pub found : find key r.0.stream_store ≡ some st
    pub new : st.stream ≡ (new_gw_stream aether sm bs kind w).0
    pub world : r.1 ≡ (let (h, v) = new_gw_stream aether sm bs kind w in write aether sm bs h d v)

  pub input-IsFirst :
      (device_id : ℕ) (c : GatewayCall) (p : LocalPort) (w : W aether sm bs)
      → let g = gateway_streams aether sm bs in
        let key = call_key g api device_id c in
        find key p.stream_store ≡ none
        → (st : StreamStore) × IsFirst key
            (call_server c)
            (call_payload c)
            w
            st
            (input g api device_id (pack_gateway c) p w)
  unfolding add_stream
  input-IsFirst device_id c p w new =
      let g = gateway_streams aether sm bs in
      let key = call_key g api device_id c in
      let (st, o) = open_stream-Opened g key (call_server c) p w in
      let opened = open_stream_new g key (call_server c) p w new in
      (
        st,
        record {
          found = ap (λ r. find key r.0.stream_store) (input-pack g api device_id c p w) ∙ o.found;
          new = sym o.returned ∙ ap (λ r. r.0) opened;
          world =
              ap (λ r. r.1) (input-pack g api device_id c p w)
              ∙ ap (λ r. g.write r.0 (call_payload c) r.2) opened;
        },
      )

  -- A GwStream is tied to a stream of the server, and holds the data alone.
  abbrev pub Delivered : ℕ → ℕ → DataBuffer → W aether sm bs → Type 0
  Delivered h id d w =
      (k : ℕ) × (stream_of aether sm bs (find h w.gw_streams) ≡ some k)
      × Serves aether w.manager k id
      × (written aether sm bs w h ≡ d ∷ [])
