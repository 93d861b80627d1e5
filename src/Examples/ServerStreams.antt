-- ===== src/Examples/ServerStreams.antt =====
-- A manager with one known server, one cached stream, and a request for another server.
use aether_gateway.Prelude.{ℕ, ◌≡◌, ◌≢◌, refl, true, [], ◌∷◌, ◌++◌, none, some, arith}
use aether_gateway.Map.{find, nat_order}
use aether_gateway.Map.Laws.{Distinct}
use aether_gateway.Aether.{ServerEndpoints, error, tcp}
use aether_gateway.Aether.StateMachine.{StateMachine, flagged}
use aether_gateway.Aether.Servers.{Server}
use aether_gateway.ServerStreams.{
  Manager, RequestState, request, new_request, get_stream, ServerDescriptor, build_server, update,
  on_servers_error, expired, cache_stream, contains,
}
use aether_gateway.ServerStreams.Cache.{get_stream_cached, cached_or_request, expired_entry_blocks}
use aether_gateway.ServerStreams.Building.{build_server_new}
use aether_gateway.ServerStreams.Invariant.{IsValid}
use aether_gateway.ServerStreams.Lifecycle.{request_refused, sent, sent-IsWaiting}
use aether_gateway.Examples.Servers.{servers, Registry, registry, server_five}
use aether_gateway.Examples.Gateway.{manager}

abbrev machine : StateMachine RequestState
machine = flagged RequestState

-- Stream 0 serves server 5; `cached_gone` has let it go.
abbrev cached_live : Manager servers
cached_live = record {
  servers = registry;
  next_stream = 1;
  stream_server = (0, server_five) ∷ [];
  gone = [];
  stream_cache = (5, 0) ∷ [];
}

abbrev cached_gone : Manager servers
cached_gone = record cached_live { gone = 0 ∷ [] }

one_entry : Distinct cached_live.stream_cache
unfolding find
one_entry = (refl, tt)

get_stream_cached_example :
    (get_stream servers machine 5 true cached_live).0
    ≡ cached_or_request servers machine 5 cached_live (find 5 cached_live.stream_cache)
get_stream_cached_example = get_stream_cached servers machine 5 cached_live one_entry

found_five : find 5 cached_gone.stream_cache ≡ some 0
unfolding find
found_five = refl

let_go_of : expired servers cached_gone 0 ≡ true
unfolding expired contains
let_go_of = refl

expired_entry_blocks_example :
    (get_stream servers machine 5 true (cache_stream servers 5 1 cached_gone)).0
    ≡ request (new_request servers machine 5)
expired_entry_blocks_example =
    expired_entry_blocks servers machine 5 1 0 cached_gone one_entry found_five let_go_of

abbrev endpoints : ServerEndpoints
endpoints = record { endpoints = record { ip = 127 ∷ []; port = 9010; protocol = tcp } ∷ [] }

nine_nonzero : ◌≢◌ {A = ℕ} 9 0
nine_nonzero e = omega arith

abbrev built : Server × Registry
built = build_server servers 9 endpoints registry

build_server_new_example :
    (built.0.server_id ≡ 9)
    × (built.0.endpoints ≡ endpoints.endpoints)
    × (built.1.in_cloud ≡ registry.in_cloud ++ built.0 ∷ [])
    × (servers.get_server 9 built.1 ≡ some built.0)
    × ((j : ℕ) → ◌≢◌ {A = ℕ} 9 j → servers.get_server j built.1 ≡ servers.get_server j registry)
build_server_new_example = build_server_new servers 9 endpoints registry nine_nonzero refl

manager-IsValid : IsValid servers manager
unfolding find
manager-IsValid = record { distinct = tt; cached = λ id h e. cc; made = λ h s e. cc }

abbrev descriptor : ServerDescriptor
descriptor = record {
  server_id = 9;
  ips =
      record { ip = 127 ∷ []; protocol_and_ports = record { port = 9010; protocol = tcp } ∷ [] }
      ∷ [];
}

request_refused_example :
    let (u, r, m) =
      update servers machine (on_servers_error servers machine (sent servers machine 9)) manager in
    (u ≡ error) × (r.stream ≡ none) × (m ≡ manager)
request_refused_example =
    request_refused servers machine 9 (sent servers machine 9) manager
      (sent-IsWaiting servers machine 9)
