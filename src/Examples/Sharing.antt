-- ===== src/Examples/Sharing.antt =====
-- A gateway with a GwStream for server 5, tied to the one server stream, which is cached.
use aether_gateway.Prelude.{◌≡◌, [], ◌∷◌, some, arith}
use aether_gateway.Map.{nat_order}
use aether_gateway.Aether.StateMachine.{StateMachine, flagged}
use aether_gateway.Aether.BufferStream.{log_stream}
use aether_gateway.Aether.{ServerEndpoints, tcp}
use aether_gateway.LocalPort.Keys.{by_id, key_order}
use aether_gateway.ServerStreams.{ServerDescriptor, Manager, RequestState, open_cache}
use aether_gateway.ServerStreams.Purge.{open_cache_loop, open_cache_loop_ends}
use aether_gateway.GwStream.{GwStream, World}
use aether_gateway.GwStream.Answered.{Answered}
use aether_gateway.Examples.Servers.{servers, registry, server_five}
use aether_gateway.Examples.Gateway.{manager, world}

abbrev pub machine : StateMachine RequestState
machine = flagged RequestState

abbrev tied : GwStream servers machine log_stream
tied = record { server = by_id 5; server_stream = some 0; buffer_stream = [] }

abbrev pub W : Type 0
W = World servers machine log_stream

abbrev tied_world : W
tied_world = record {
  manager = record {
    servers = registry;
    next_stream = 1;
    stream_server = (0, server_five) ∷ [];
    gone = [];
    stream_cache = (5, 0) ∷ [];
  };
  next_handle = 1;
  gw_streams = (0, tied) ∷ [];
  actions = [];
  clock = 100;
}

abbrev later : W
later = record tied_world { clock = 200 }

-- Of two cached streams, the first has expired.
abbrev half_gone : Manager servers
half_gone = record tied_world.manager { gone = 0 ∷ []; stream_cache = (5, 0) ∷ (6, 1) ∷ [] }

open_cache_loop_ends_example :
    open_cache_loop servers 3 half_gone ≡ some (open_cache servers half_gone)
open_cache_loop_ends_example = open_cache_loop_ends servers 3 half_gone (omega arith)

-- A gateway that knows no server, and the cloud's reply.
abbrev empty_manager : Manager servers
empty_manager = record manager { servers = record registry { known = [] } }

abbrev pub five : ServerDescriptor
five = record { server_id = 5; ips = [] }

abbrev lonely : W
lonely = record world { manager = empty_manager }

-- A call by endpoints, to a gateway that has a stream already.
abbrev place : ServerEndpoints
place = record { endpoints = record { ip = 127 ∷ []; port = 9010; protocol = tcp } ∷ [] }
