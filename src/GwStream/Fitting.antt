-- ===== src/GwStream/Fitting.antt =====
-- Whether a server stream is one of the server that was asked for, in what the manager hands out
-- (libs/gateway/server_stream_manager.cpp, libs/gateway/gw_stream.cpp).
use aether_gateway.Prelude.{
  ℕ, ◌≡◌, ◌∙◌, refl, sym, subst, List, [], ◌∷◌, true, Option, none, some, arith, Bool-cases,
  Option-cases, inl, inr,
}
use aether_gateway.Map.{find, nat_order}
use aether_gateway.Map.Laws.{find-emplace}
use aether_gateway.Map.Values.{AtValue}
use aether_gateway.Aether.{ServerEndpoints}
use aether_gateway.Aether.StateMachine.{StateMachine}
use aether_gateway.Aether.Servers.{Server, AetherServers}
use aether_gateway.Aether.BufferStream.{BufferStream}
use aether_gateway.LocalPort.Keys.{ServeKind, by_id, by_endpoints}
use aether_gateway.ServerStreams.{
  Manager, RequestState, check_server_exists, request_server, got_result, got_error, Request,
  StreamGetAction, existing, request, get_stream, get_stream_by_endpoints, expired, update,
  on_state, check_exists, finish, make_stream, cache_stream, open_cache, new_request,
  ServerDescriptor, on_servers, build_server, endpoints_of_ips,
}
use aether_gateway.ServerStreams.Invariant.{
  IsValid, Serves, make_stream-Serves, make_stream-IsValid, open_cache-IsValid, servers-IsValid,
}
use aether_gateway.ServerStreams.Building.{build_server_by_endpoints, build_server_id}
use aether_gateway.ServerStreams.Cache.{get_stream_cached, cached_or_request}
use aether_gateway.ServerStreams.Requests.{
  update_changed, update_idle, acquired, check_exists_known, check_exists_unknown, finish-IsValid,
}
use aether_gateway.GwStream.{ask_manager, update_manager}

-- The reply names the server that was asked for.
abbrev pub Names : ℕ → List ServerDescriptor → Type 0
Names id [] = Unit
Names id (sd ∷ sds) = sd.server_id ≡ id

module _ (aether : AetherServers) (sm : StateMachine RequestState) where
  abbrev pub IsOf : ServeKind → Server → Type 0
  IsOf (by_id id) server = server.server_id ≡ id
  IsOf (by_endpoints es) server = server.endpoints ≡ es.endpoints

  -- The stream has been made, and for a server that was asked for.
  abbrev pub Fits : Manager aether → ServeKind → ℕ → Type 0
  Fits m kind k = (server : Server) × (find k m.stream_server ≡ some server) × IsOf kind server

  -- An action that has, or can get, none but a stream of the server.
  abbrev pub ActionFits : Manager aether → StreamGetAction aether sm → ServeKind → Type 0
  ActionFits m (existing o) kind = AtValue (Fits m kind) o
  ActionFits m (request r) kind = AtValue (Fits m kind) r.stream × (kind ≡ by_id r.server_id)

  -- The manager goes on, and every stream keeps its server.
  pub record Keeps (m n : Manager aether) : Type 0 where
    pub valid : IsValid aether n
    pub kept :
        (k : ℕ) (s : Server) → find k m.stream_server ≡ some s → find k n.stream_server ≡ some s

  pub Fits-Keeps :
      (m n : Manager aether) (kind : ServeKind) (o : Option ℕ)
      → Keeps m n
      → AtValue (Fits m kind) o
      → AtValue (Fits n kind) o
  Fits-Keeps m n kind none g f = tt
  Fits-Keeps m n kind (some k) g (s, e, q) = (s, g.kept k s e, q)

  pub ActionFits-Keeps :
      (m n : Manager aether) (action : StreamGetAction aether sm) (kind : ServeKind)
      → Keeps m n
      → ActionFits m action kind
      → ActionFits n action kind
  ActionFits-Keeps m n (existing o) kind g f = Fits-Keeps m n kind o g f
  ActionFits-Keeps m n (request r) kind g (f, q) = (Fits-Keeps m n kind r.stream g f, q)

  pub Keeps-refl : (m : Manager aether) → IsValid aether m → Keeps m m
  Keeps-refl m v = record { valid = v; kept = λ k s e. e }

  make_stream-kept :
      (server : Server) (m : Manager aether) (k : ℕ) (s : Server)
      → find k m.stream_server ≡ some s
      → find k (make_stream aether server m).1.stream_server ≡ some s
  unfolding make_stream
  make_stream-kept server m k s e =
      ground (arith, find-emplace k m.next_stream server m.stream_server)

  abbrev RequestFits : Manager aether → Request aether sm × Manager aether → ServeKind → Type 0
  RequestFits m (r, n) kind = ActionFits n (request r) kind × Keeps m n

  pub finish-RequestFits :
      (server : Server) (r : Request aether sm) (m : Manager aether) (kind : ServeKind)
      → IsValid aether m
      → server.server_id ≡ r.server_id
      → kind ≡ by_id r.server_id
      → RequestFits m (finish aether sm server r m) kind
  unfolding finish cache_stream
  finish-RequestFits server r m kind v same q = (
    (rw q (server, make_stream-Serves aether server m v, same), q),
    record { valid = finish-IsValid aether sm server r m v same; kept = make_stream-kept server m },
  )

  check_exists-RequestFits :
      (r : Request aether sm) (m : Manager aether) (kind : ServeKind)
      → IsValid aether m
      → ActionFits m (request r) kind
      → RequestFits m (check_exists aether sm r m) kind
  check_exists-RequestFits r m kind v (f, q) =
      elim (Option-cases (aether.get_server r.server_id m.servers)) [
        | inr (server, e) ↦ rw (check_exists_known aether sm r m server e) (
            finish-RequestFits server r m kind v
              (aether.get_server_id r.server_id m.servers server e) q)
        | inl e ↦ rw (check_exists_unknown aether sm r m e) ((f, q), Keeps-refl m v)
      ]

  on_state-RequestFits :
      (s : RequestState) (r : Request aether sm) (m : Manager aether) (kind : ServeKind)
      → IsValid aether m
      → ActionFits m (request r) kind
      → let (_, r', n) = on_state aether sm s r m in RequestFits m (r', n) kind
  unfolding on_state
  on_state-RequestFits check_server_exists r m kind v f = check_exists-RequestFits r m kind v f
  on_state-RequestFits request_server r m kind v f = (f, Keeps-refl m v)
  on_state-RequestFits got_result r m kind v f = (f, Keeps-refl m v)
  on_state-RequestFits got_error r m kind v f = (f, Keeps-refl m v)

  update-RequestFits :
      (r : Request aether sm) (m : Manager aether) (kind : ServeKind)
      → IsValid aether m
      → ActionFits m (request r) kind
      → let (_, r', n) = update aether sm r m in RequestFits m (r', n) kind
  update-RequestFits r m kind v f = elim (Bool-cases (sm.changed r.state)) [
    | inl c ↦
        rw (update_changed aether sm r m (sm.current r.state) c refl)
          (on_state-RequestFits (sm.current r.state) (acquired aether sm r) m kind v f)
    | inr c ↦ rw (update_idle aether sm r m c) (f, Keeps-refl m v)
  ]

  pub update_manager-ActionFits :
      (bs : BufferStream) (action : StreamGetAction aether sm) (m : Manager aether)
      (kind : ServeKind)
      → IsValid aether m
      → ActionFits m action kind
      → let (_, action', n) = update_manager aether sm bs action m in
        ActionFits n action' kind × Keeps m n
  unfolding update_manager
  update_manager-ActionFits bs (existing o) m kind v f = (f, Keeps-refl m v)
  update_manager-ActionFits bs (request r) m kind v f = update-RequestFits r m kind v f

  pub on_servers-RequestFits :
      (sds : List ServerDescriptor) (r : Request aether sm) (m : Manager aether) (kind : ServeKind)
      → IsValid aether m
      → Names r.server_id sds
      → kind ≡ by_id r.server_id
      → AtValue (λ v. RequestFits m v kind) (on_servers aether sm sds r m)
  unfolding on_servers
  on_servers-RequestFits [] r m kind v named q = tt
  on_servers-RequestFits (sd ∷ sds) r m kind v named q =
      let es : ServerEndpoints = record { endpoints = endpoints_of_ips sd.ips } in
      let (server, a) = build_server aether sd.server_id es m.servers in
      let (f, g) =
        finish-RequestFits server r (record m { servers = a }) kind (servers-IsValid aether a m v)
          (build_server_id aether sd.server_id es m.servers ∙ named) q in
      (f, record { valid = g.valid; kept = g.kept })

  cached-ActionFits :
      (id : ℕ) (m n : Manager aether) (o : Option ℕ)
      → ((k : ℕ) → o ≡ some k → Serves aether n k id)
      → ActionFits n (cached_or_request aether sm id m o) (by_id id)
  unfolding new_request
  cached-ActionFits id m n none serves = (tt, refl)
  cached-ActionFits id m n (some k) serves = elim (Bool-cases (expired aether m k)) [
    | inl dead ↦ rw dead (tt, refl)
    | inr live ↦ rw live (serves k refl)
  ]

  pub ask_manager-ActionFits :
      (bs : BufferStream) (kind : ServeKind) (m : Manager aether)
      → IsValid aether m
      → let (action, n) = ask_manager aether sm bs kind m in ActionFits n action kind × Keeps m n
  unfolding ask_manager get_stream get_stream_by_endpoints open_cache
  ask_manager-ActionFits bs (by_id id) m v = (
    subst (λ a. ActionFits (get_stream aether sm id true m).1 a (by_id id))
        (sym (get_stream_cached aether sm id m v.distinct))
        (cached-ActionFits id m (get_stream aether sm id true m).1 (find id m.stream_cache)
          (λ k e. v.cached id k e)),
    record { valid = open_cache-IsValid aether m v; kept = λ k s e. e },
  )
  ask_manager-ActionFits bs (by_endpoints es) m v =
      let (server, a) = build_server aether 0 es m.servers in
      let m' : Manager aether = record m { servers = a } in
      let v' = servers-IsValid aether a m v in
      (
        (
          server,
          make_stream-Serves aether server m' v',
          (build_server_by_endpoints aether es m.servers).1,
        ),
        record {
          valid = make_stream-IsValid aether server m' v';
          kept = make_stream-kept server m';
        },
      )
