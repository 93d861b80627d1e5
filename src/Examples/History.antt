-- ===== src/Examples/History.antt =====
-- A gateway that knows no server: a packet, two updates, the reply of the cloud and one more update.
use aether_gateway.Prelude.{◌≡◌, refl, [], ◌∷◌, Option, none, some}
use aether_gateway.Map.{nat_order, find, modify, emplace, erase, erase_if}
use aether_gateway.Aether.BufferStream.{log_stream}
use aether_gateway.LocalPort.Keys.{key_order, make_key, server_identity, key_lt}
use aether_gateway.ServerStreams.{
  request, Request, update, on_state, check_exists, finish, on_servers, build_server,
  create_and_add, make_stream, cache_stream, get_stream, open_cache, expired, contains, lock,
  new_request, endpoints_of_ips,
}
use aether_gateway.LocalPort.{
  LocalPort, input, gateway_calls, gateway_call, open_stream, add_stream, touch, new_local_port,
}
use aether_gateway.GwStream.{
  update_action, servers_reply, update_manager, after_update, on_result, keep_action, end_action,
  release, held_by_actions, held_by_streams, ask_manager, new_gw_stream, write,
}
use aether_gateway.GwStream.Histories.{Step}
use aether_gateway.Gateway.Histories.{GatewayReach, GatewayStep, TrustedReach, new_world}
use aether_gateway.Gateway.RightServer.{IsRight, stored-IsRight}
use aether_gateway.Examples.Codec.{codec}
use aether_gateway.Examples.Gateway.{streams, call, key, entry}
use aether_gateway.Examples.Servers.{servers, registry, Registry}
use aether_gateway.Examples.Sharing.{machine, W, five}

abbrev empty_registry : Registry
empty_registry = record registry { known = [] }

abbrev w0 : W
w0 = new_world servers machine log_stream codec empty_registry 100

abbrev the : Option W → W
the none = w0
the (some w) = w

abbrev p1 : LocalPort
p1 = (input streams codec 7 (codec.pack_gateway call) new_local_port w0).0

abbrev w1 : W
w1 = (input streams codec 7 (codec.pack_gateway call) new_local_port w0).1

abbrev w2 : W
w2 = the (update_action servers machine log_stream 0 w1)

abbrev w3 : W
w3 = the (update_action servers machine log_stream 0 w2)

abbrev w4 : W
w4 = the (servers_reply servers machine log_stream 0 (five ∷ []) w3)

abbrev w5 : W
w5 = the (update_action servers machine log_stream 0 w4)

-- What each event leads to, which server the request is for, and the entry of the call.
steps :
    (update_action servers machine log_stream 0 w1 ≡ some w2)
    × (update_action servers machine log_stream 0 w2 ≡ some w3)
    × (servers_reply servers machine log_stream 0 (five ∷ []) w3 ≡ some w4)
    × (update_action servers machine log_stream 0 w4 ≡ some w5)
    × ((r : Request servers machine) → find 0 w3.actions ≡ some (request r) → 5 ≡ r.server_id)
    × (find key p1.stream_store ≡ some entry)
unfolding update_action servers_reply update_manager after_update on_result keep_action end_action
    release held_by_actions held_by_streams ask_manager new_gw_stream write update on_state
    check_exists finish on_servers build_server create_and_add make_stream cache_stream get_stream
    open_cache expired contains lock new_request endpoints_of_ips find modify emplace erase erase_if
    input gateway_calls gateway_call open_stream add_stream touch new_local_port make_key
    server_identity key_lt
steps = (refl, refl, refl, refl, λ r e. cc e, refl)

abbrev history : GatewayReach servers machine log_stream codec new_local_port w0 p1 w5
history =
    let (second, third, fourth, fifth, _, _) = steps in
    GatewayReach.next
      (GatewayReach.next
        (GatewayReach.next
          (GatewayReach.next
            (GatewayReach.next GatewayReach.here (GatewayStep.received 7 (codec.pack_gateway call)))
            (GatewayStep.behind (Step.updated 0 w2 second) tt))
          (GatewayStep.behind (Step.updated 0 w3 third) tt))
        (GatewayStep.behind (Step.replied 0 (five ∷ []) w4 fourth) tt))
      (GatewayStep.behind (Step.updated 0 w5 fifth) tt)

history_trusted : TrustedReach servers machine log_stream codec history
history_trusted = let (_, _, _, _, asked, _) = steps in (((((tt, tt), tt), tt), asked), tt)

stored-IsRight_example : IsRight servers machine log_stream codec p1 w5 key entry
stored-IsRight_example =
    let (_, _, _, _, _, kept) = steps in
    stored-IsRight servers machine log_stream codec empty_registry 100 history history_trusted key
      entry kept
