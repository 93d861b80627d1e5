-- ===== src/Examples/Broken.antt =====
-- A local port whose streams report a link in error.
use aether_gateway.Prelude.{◌≡◌, ◌≢◌, refl, true, List, [], ◌∷◌, map, none, some}
use aether_gateway.Map.{find, emplace, modify}
use aether_gateway.Aether.{link_error}
use aether_gateway.Aether.StateMachine.{flagged}
use aether_gateway.Aether.BufferStream.{BufferStream, log_stream}
use aether_gateway.ServerStreams.{RequestState}
use aether_gateway.GwStream.Interface.{gateway_streams}
use aether_gateway.LocalPort.Keys.{Key, make_key, server_identity, key_order, key_lt}
use aether_gateway.LocalPort.Interface.{GwStreams}
use aether_gateway.LocalPort.{
  LocalPort, new_local_port, input, open_stream, gateway_call, on_stream_update, is_link_error,
  on_out_data, out_data, subscribers, touch,
}
use aether_gateway.LocalPort.Invariant.{IsValid, new_local_port-IsValid}
use aether_gateway.LocalPort.Routing.{input-IsValid}
use aether_gateway.LocalPort.Links.{on_stream_update_broken}
use aether_gateway.LocalPort.Refinement.{
  PortEvent, called, Fits, LinkIs, port_step, run_port, view, replay,
}
use aether_gateway.LocalPort.Refinement.Events.{run_port_refines}
use aether_gateway.LocalPort.Refinement.Packets.{
  Traffic, asked, heard, failed, emitted, expected, logs_of, read_output, FitsLinks,
  emitted-expected,
}
use aether_gateway.Examples.Codec.{codec}
use aether_gateway.Examples.Servers.{servers}
use aether_gateway.Examples.Gateway.{manager, call, key, entry}

abbrev broken_stream : BufferStream
broken_stream = record log_stream { link_state = λ b. link_error }

abbrev broken : GwStreams
broken = gateway_streams servers (flagged RequestState) broken_stream

abbrev broken_world : broken.World
broken_world = record {
  manager = manager;
  next_handle = 0;
  gw_streams = [];
  actions = [];
  clock = 100;
}

abbrev broken_port : LocalPort
broken_port = (input broken codec 7 (codec.pack_gateway call) new_local_port broken_world).0

abbrev broken_after : broken.World
broken_after = (input broken codec 7 (codec.pack_gateway call) new_local_port broken_world).1

broken-IsValid : IsValid broken codec.endpoints_hash broken_port broken_after
broken-IsValid =
    input-IsValid broken codec 7 (codec.pack_gateway call) new_local_port broken_world
      (new_local_port-IsValid broken codec.endpoints_hash broken_world)

broken_stored : find key broken_port.stream_store ≡ some entry
unfolding input open_stream find gateway_call new_local_port modify emplace key_lt make_key
    server_identity aether_gateway.GwStream.new_gw_stream
broken_stored = refl

in_error : is_link_error (broken.link_state 0 broken_after) ≡ true
unfolding input open_stream find gateway_call new_local_port modify emplace key_lt make_key
    server_identity aether_gateway.GwStream.new_gw_stream aether_gateway.GwStream.link_state
    aether_gateway.GwStream.write
in_error = refl

on_stream_update_broken_example :
    let (p, w) = on_stream_update broken 0 broken_port broken_after in
    (find key p.stream_store ≡ none)
    × (broken.serves w 0 ≡ none)
    × ((j : Key) → key ≢ j → find j p.stream_store ≡ find j broken_port.stream_store)
on_stream_update_broken_example =
    on_stream_update_broken broken codec.endpoints_hash broken_port broken_after key entry
      broken-IsValid broken_stored in_error

-- A call, the end of its link, and another call.
abbrev events : List PortEvent
events = called 7 call ∷ PortEvent.broken key ∷ called 7 call ∷ []

broken-link : LinkIs broken codec true (find key broken_port.stream_store) broken_after
broken-link = rw broken_stored in_error

events-Fits : Fits broken codec events new_local_port broken_world
unfolding port_step
events-Fits = (tt, (broken-link, (tt, tt)))

run_port_refines_example :
    let (p, w) = run_port broken codec events new_local_port broken_world in
    view broken codec p w key
    ≡ replay broken codec key events (view broken codec new_local_port broken_world key)
run_port_refines_example =
    run_port_refines broken codec events new_local_port broken_world key
      (new_local_port-IsValid broken codec.endpoints_hash broken_world) events-Fits

-- A call, an answer, the end of the link, an answer that comes too late, and another call.
abbrev traffic : List Traffic
traffic =
    asked 7 call
    ∷ heard key (4 ∷ [])
    ∷ failed key
    ∷ heard key (5 ∷ [])
    ∷ asked 7 call
    ∷ heard key (6 ∷ [])
    ∷ []

traffic-FitsLinks : FitsLinks broken codec traffic new_local_port broken_world
unfolding port_step input open_stream find gateway_call new_local_port modify emplace key_lt
    make_key server_identity on_out_data out_data subscribers touch
    aether_gateway.GwStream.new_gw_stream aether_gateway.GwStream.link_state
    aether_gateway.GwStream.write
traffic-FitsLinks = (tt, (tt, (refl, (tt, (tt, (tt, tt))))))

emitted-expected_example :
    map (read_output broken codec) (emitted broken codec traffic new_local_port broken_world)
    ≡ expected broken codec traffic (logs_of broken codec new_local_port broken_world)
emitted-expected_example =
    emitted-expected broken codec traffic new_local_port broken_world
      (new_local_port-IsValid broken codec.endpoints_hash broken_world) traffic-FitsLinks
