-- ===== src/ServerStreams.antt =====
-- class ServerStreamManager with its two actions (libs/gateway/server_stream_manager.h,
-- libs/gateway/server_stream_manager.cpp). Streams are named by the number of their creation; a
-- stream is expired once its last owner, an action or a GwStream, has let it go.
pub mod Cache
pub mod Building
pub mod Invariant
pub mod Requests
pub mod Lifecycle
pub mod Purge
pub mod Stream
use aether_gateway.Prelude.{
  ℕ, ◌+◌, Bool, true, false, ◌||◌, not, List, [], ◌∷◌, ◌++◌, map, Option, none, some, ◌==◌,
  if◌then◌else◌,
}
use aether_gateway.Map.{Map, find, emplace, erase_if, nat_order}
use aether_gateway.Aether.{
  Endpoint, ServerEndpoints, Protocol, UpdateStatus, pending, result, error,
}
use aether_gateway.Aether.StateMachine.{StateMachine}
use aether_gateway.Aether.Servers.{Server, AetherServers}

-- One address of a server with its ports, and a server, as GetServersAction returns them.
pub record ProtocolPort : Type 0 where
  pub port : ℕ
  pub protocol : Protocol

pub record IpPorts : Type 0 where
  pub ip : List ℕ
  pub protocol_and_ports : List ProtocolPort

pub record ServerDescriptor : Type 0 where
  pub server_id : ℕ
  pub ips : List IpPorts

-- RequestServerStreamGetAction::State.
pub data RequestState : Type 0 where
  check_server_exists request_server got_result got_error : RequestState

-- The two nested loops that flatten a descriptor.
unfoldable pub endpoints_of_ip : List ℕ → List ProtocolPort → List Endpoint
endpoints_of_ip ip [] = []
endpoints_of_ip ip (pp ∷ pps) =
    record { ip = ip; port = pp.port; protocol = pp.protocol } ∷ endpoints_of_ip ip pps

unfoldable pub endpoints_of_ips : List IpPorts → List Endpoint
unfolding endpoints_of_ip
endpoints_of_ips [] = []
endpoints_of_ips (i ∷ is) = endpoints_of_ip i.ip i.protocol_and_ports ++ endpoints_of_ips is

unfoldable pub contains : ℕ → List ℕ → Bool
contains a [] = false
contains a (x ∷ xs) = x == a || contains a xs

module _ (aether : AetherServers) where
  open aether use {A, get_server, add_server, create_server, register_server, cloud_add_server}

  -- The manager's cache, and what it reaches: the library's servers and the streams.
  pub record Manager : Type 0 where
    pub servers : A
    pub next_stream : ℕ
    pub stream_server : Map ℕ Server
    pub gone : List ℕ
    pub stream_cache : Map ℕ ℕ

  unfoldable pub expired : Manager → ℕ → Bool
  unfolding contains
  expired m h = contains h m.gone

  -- weak_ptr::lock.
  unfoldable pub lock : Manager → ℕ → Option ℕ
  unfolding expired
  lock m h = if expired m h then none else some h

  -- The last owner of a stream lets it go.
  unfoldable pub let_go : ℕ → Manager → Manager
  let_go h m = record m { gone = h ∷ m.gone }

  unfoldable pub create_and_add : ℕ → ServerEndpoints → A → Server × A
  create_and_add server_id endpoints a =
      let (server, a') = create_server server_id endpoints.endpoints a in
      let a'' = cloud_add_server server (register_server server a') in
      (server, if not (server_id == 0) then add_server server a'' else a'')

  unfoldable pub build_server : ℕ → ServerEndpoints → A → Server × A
  unfolding create_and_add
  build_server server_id endpoints a =
      if not (server_id == 0)
      then elim (get_server server_id a) [
        | some cached ↦ (cached, a)
        | none ↦ create_and_add server_id endpoints a
      ]
      else create_and_add server_id endpoints a

  unfoldable pub make_stream : Server → Manager → ℕ × Manager
  make_stream server m = (
    m.next_stream,
    record m {
      next_stream = m.next_stream + 1;
      stream_server = emplace m.next_stream server m.stream_server;
    },
  )

  unfoldable pub cache_stream : ℕ → ℕ → Manager → Manager
  cache_stream server_id stream m = record m {
    stream_cache = emplace server_id stream m.stream_cache;
  }

  unfoldable pub open_cache : Manager → Manager
  unfolding expired
  open_cache m = record m { stream_cache = erase_if (expired m) m.stream_cache }

  module _ (sm : StateMachine RequestState) where
    open sm use {start, changed, acquire, set}

    pub record Request : Type 0 where
      pub server_id : ℕ
      pub state : sm.M
      -- The GetServersAction is running.
      pub requested : Bool
      pub stream : Option ℕ

    -- ExistingStreamGetAction and RequestServerStreamGetAction.
    pub data StreamGetAction : Type 0 where
      existing : Option ℕ → StreamGetAction
      request : Request → StreamGetAction

    -- The method `stream` of the two.
    abbrev pub action_stream : StreamGetAction → Option ℕ
    action_stream (existing stream) = stream
    action_stream (request r) = r.stream

    unfoldable pub new_request : ℕ → Request
    new_request server_id = record {
      server_id = server_id;
      state = start check_server_exists;
      requested = false;
      stream = none;
    }

    unfoldable pub get_stream : ℕ → Bool → Manager → StreamGetAction × Manager
    unfolding open_cache lock new_request
    get_stream server_id true m =
        let m' = open_cache m in
        (
          elim (find server_id m'.stream_cache) [
            | some h ↦ existing (lock m' h)
            | none ↦ request (new_request server_id)
          ],
          m',
        )
    get_stream server_id false m = (request (new_request server_id), m)

    unfoldable pub get_stream_by_endpoints : ServerEndpoints → Manager → StreamGetAction × Manager
    unfolding build_server make_stream
    get_stream_by_endpoints endpoints m =
        let (server, a) = build_server 0 endpoints m.servers in
        let (h, m') = make_stream server (record m { servers = a }) in (existing (some h), m')

    -- MakeStream, CacheStream and the move to kResult.
    unfoldable pub finish : Server → Request → Manager → Request × Manager
    unfolding make_stream cache_stream
    finish server r m =
        let (h, m') = make_stream server m in
        (
          record r { stream = some h; state = set got_result r.state },
          cache_stream r.server_id h m',
        )

    unfoldable pub check_exists : Request → Manager → Request × Manager
    unfolding finish
    check_exists r m = elim (get_server r.server_id m.servers) [
      | some server ↦ finish server r m
      | none ↦ (record r { state = set request_server r.state }, m)
    ]

    unfoldable pub on_state : RequestState → Request → Manager → UpdateStatus × Request × Manager
    unfolding check_exists
    on_state check_server_exists r m = let (r', m') = check_exists r m in (pending, r', m')
    on_state request_server r m = (pending, record r { requested = true }, m)
    on_state got_result r m = (result, r, m)
    on_state got_error r m = (error, r, m)

    unfoldable pub update : Request → Manager → UpdateStatus × Request × Manager
    unfolding on_state
    update r m =
        if changed r.state
        then (let (s, st) = acquire r.state in on_state s (record r { state = st }) m)
        else (pending, r, m)

    -- The reply of GetServersAction. `none`: servers.front() of an empty vector.
    unfoldable pub on_servers :
        List ServerDescriptor → Request → Manager → Option (Request × Manager)
    unfolding endpoints_of_ips build_server finish
    on_servers [] r m = none
    on_servers (sd ∷ sds) r m =
        let endpoints : ServerEndpoints = record { endpoints = endpoints_of_ips sd.ips } in
        let (server, a) = build_server sd.server_id endpoints m.servers in
        some (finish server r (record m { servers = a }))

    unfoldable pub on_servers_error : Request → Request
    on_servers_error r = record r { state = set got_error r.state }
