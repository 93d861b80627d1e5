-- ===== src/Examples/Gateway.antt =====
-- A local port with two devices, over the gateway's own streams.
use aether_gateway.Prelude.{◌≡◌, ◌≢◌, refl, true, false, [], ◌∷◌, ◌++◌, some}
use aether_gateway.Map.{find, emplace, modify}
use aether_gateway.Aether.StateMachine.{flagged}
use aether_gateway.Aether.BufferStream.{log_stream}
use aether_gateway.Aether.Api.{GatewayCall, to_server_id, to_server}
use aether_gateway.Aether.{ServerEndpoints, tcp}
use aether_gateway.ServerStreams.{RequestState, Manager}
use aether_gateway.GwStream.{World}
use aether_gateway.GwStream.Interface.{gateway_streams}
use aether_gateway.LocalPort.Keys.{
  by_id, by_endpoints, Key, make_key, server_identity, key_order, key_lt,
}
use aether_gateway.LocalPort.Interface.{GwStreams}
use aether_gateway.LocalPort.{
  LocalPort, new_local_port, StreamStore, input, open_stream, gateway_call, on_out_data,
  is_link_error,
}
use aether_gateway.LocalPort.Invariant.{IsValid, new_local_port-IsValid}
use aether_gateway.LocalPort.Routing.{call_key, input-IsValid, input_isolated}
use aether_gateway.LocalPort.Answering.{IsAnswered, on_out_data-IsAnswered}
use aether_gateway.LocalPort.Identity.{input_right_server, identity_collision}
use aether_gateway.LocalPort.Histories.{Reach, Step, Reach-new-IsValid}
use aether_gateway.Examples.Codec.{codec}
use aether_gateway.Examples.Servers.{servers, registry}

abbrev pub streams : GwStreams
streams = gateway_streams servers (flagged RequestState) log_stream

abbrev pub manager : Manager servers
manager = record {
  servers = registry;
  next_stream = 0;
  stream_server = [];
  gone = [];
  stream_cache = [];
}

abbrev pub world : streams.World
world = record { manager = manager; next_handle = 0; gw_streams = []; actions = []; clock = 100 }

abbrev pub call : GatewayCall
call = to_server_id 42 5 (1 ∷ 2 ∷ [])

abbrev pub key : Key
key = call_key streams codec 7 call

abbrev pub port_after : LocalPort
port_after = (input streams codec 7 (codec.pack_gateway call) new_local_port world).0

abbrev pub world_after : streams.World
world_after = (input streams codec 7 (codec.pack_gateway call) new_local_port world).1

pub world-IsValid : IsValid streams codec.endpoints_hash new_local_port world
world-IsValid = new_local_port-IsValid streams codec.endpoints_hash world

pub world_after-IsValid : IsValid streams codec.endpoints_hash port_after world_after
world_after-IsValid =
    input-IsValid streams codec 7 (codec.pack_gateway call) new_local_port world world-IsValid

abbrev pub entry : StreamStore
entry = record { last_used = 100; server = by_id 5; stream = 0 }

pub stored : find key port_after.stream_store ≡ some entry
unfolding input open_stream find gateway_call new_local_port modify emplace key_lt make_key
    server_identity aether_gateway.GwStream.new_gw_stream
stored = refl

Reach-new-IsValid_example : IsValid streams codec.endpoints_hash port_after world_after
Reach-new-IsValid_example =
    Reach-new-IsValid streams codec {w = world}
      (Reach.next Reach.here (Step.received 7 (codec.pack_gateway call)))

-- Another device, with the same client and server.
other_key : key ≢ call_key streams codec 8 call
unfolding make_key
other_key e = cc

apart : call_key streams codec 8 call ≢ key
unfolding make_key
apart e = cc

input_isolated_example :
    let (p, w) = input streams codec 8 (codec.pack_gateway call) port_after world_after in
    (find key p.stream_store ≡ some entry) × (streams.written w 0 ≡ streams.written world_after 0)
input_isolated_example =
    input_isolated streams codec 8 call port_after world_after key entry world_after-IsValid apart
      stored

on_out_data-IsAnswered_example :
    let (p, out) = on_out_data streams codec 0 (9 ∷ []) port_after world_after in
    IsAnswered streams codec key entry (9 ∷ []) (streams.now world_after) port_after p out
on_out_data-IsAnswered_example =
    on_out_data-IsAnswered streams codec port_after world_after key entry (9 ∷ [])
      world_after-IsValid stored

right_server : (st : StreamStore) → find key port_after.stream_store ≡ some st → st.server ≡ by_id 5
right_server st e = cc (stored, e)

input_right_server_example :
    let (p, w) = input streams codec 7 (codec.pack_gateway call) port_after world_after in
    (st : StreamStore) × (find key p.stream_store ≡ some st)
    × (streams.serves w st.stream ≡ some (by_id 5))
input_right_server_example =
    input_right_server streams codec 7 call port_after world_after world_after-IsValid right_server

-- Endpoints whose hash is the id of server 5.
abbrev alike : ServerEndpoints
alike = record { endpoints = record { ip = 127 ∷ []; port = 5; protocol = tcp } ∷ [] }

abbrev call_alike : GatewayCall
call_alike = to_server 42 alike (3 ∷ [])

same_bits :
    server_identity codec.endpoints_hash (by_id 5)
    ≡ server_identity codec.endpoints_hash (by_endpoints alike)
unfolding server_identity
same_bits = refl

identity_collision_example :
    let (p, w) = input streams codec 7 (codec.pack_gateway call_alike) port_after world_after in
    (streams.serves w 0 ≡ some (by_id 5))
    × (streams.written w 0 ≡ streams.written world_after 0 ++ (3 ∷ []) ∷ [])
identity_collision_example =
    identity_collision streams codec 7 call_alike port_after world_after (by_id 5) entry
      world_after-IsValid stored refl same_bits

healthy : is_link_error (streams.link_state 0 world_after) ≡ false
unfolding input open_stream find gateway_call new_local_port modify emplace key_lt make_key
    server_identity aether_gateway.GwStream.new_gw_stream aether_gateway.GwStream.link_state
    aether_gateway.GwStream.write
healthy = refl

below_8 : key_lt key (call_key streams codec 8 call) ≡ true
unfolding key_lt make_key
below_8 = refl

below_9 : key_lt (call_key streams codec 8 call) (call_key streams codec 9 call) ≡ true
unfolding key_lt make_key
below_9 = refl
