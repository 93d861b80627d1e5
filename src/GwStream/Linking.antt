-- ===== src/GwStream/Linking.antt =====
-- Whether an action of the manager has a stream when it reports a result
-- (libs/gateway/gw_stream.cpp, libs/gateway/server_stream_manager.cpp).
use aether_gateway.Prelude.{
  ℕ, ◌≡◌, ◌≢◌, ◌∙◌, refl, sym, subst, List, [], ◌∷◌, Option, none, some, inl, inr, Option-cases,
  Bool-cases,
}
use aether_gateway.Map.{find, nat_order}
use aether_gateway.Map.Laws.{Distinct, emplace-Distinct, erase_if-Distinct}
use aether_gateway.Aether.{ServerEndpoints, UpdateStatus, pending, result}
use aether_gateway.Aether.StateMachine.{StateMachine}
use aether_gateway.Aether.Servers.{Server, AetherServers}
use aether_gateway.Aether.BufferStream.{BufferStream}
use aether_gateway.LocalPort.Keys.{ServeKind, by_id, by_endpoints}
use aether_gateway.ServerStreams.{
  Manager, action_stream, RequestState, check_server_exists, request_server, got_result, got_error,
  Request, StreamGetAction, existing, request, new_request, get_stream, get_stream_by_endpoints,
  expired, update, on_state, check_exists, finish, make_stream, cache_stream, open_cache,
  ServerDescriptor, endpoints_of_ips, build_server, on_servers, on_servers_error,
}
use aether_gateway.ServerStreams.Cache.{get_stream_cached, cached_or_request}
use aether_gateway.ServerStreams.Requests.{
  update_changed, update_idle, new_request_current, acquired, check_exists_known,
  check_exists_unknown,
}
use aether_gateway.GwStream.{ask_manager, update_manager}

module _ (aether : AetherServers) (sm : StateMachine RequestState) where
  open sm use {current, changed}

  -- An action that has a stream whenever it reports a result.
  abbrev pub IsReady : StreamGetAction aether sm → Type 0
  IsReady (existing stream) = stream ≢ none
  IsReady (request r) = current r.state ≡ got_result → r.stream ≢ none

  new_request-IsReady : (id : ℕ) → IsReady (request (new_request aether sm id))
  new_request-IsReady id e = cc (new_request_current aether sm id, e)

  cached-IsReady :
      (id : ℕ) (m : Manager aether) (o : Option ℕ) → IsReady (cached_or_request aether sm id m o)
  cached-IsReady id m none = new_request-IsReady id
  cached-IsReady id m (some h) = elim (Bool-cases (expired aether m h)) [
    | inl dead ↦ rw dead (new_request-IsReady id)
    | inr live ↦ rw live (λ e. cc)
  ]

  pub ask_manager-IsReady :
      (bs : BufferStream) (server : ServeKind) (m : Manager aether)
      → Distinct m.stream_cache
      → IsReady (ask_manager aether sm bs server m).0
  unfolding ask_manager get_stream_by_endpoints
  ask_manager-IsReady bs (by_id id) m d =
      subst IsReady (sym (get_stream_cached aether sm id m d))
        (cached-IsReady id m (find id m.stream_cache))
  ask_manager-IsReady bs (by_endpoints es) m d = λ e. cc

  pub ask_manager-Distinct :
      (bs : BufferStream) (server : ServeKind) (m : Manager aether)
      → Distinct m.stream_cache
      → Distinct (ask_manager aether sm bs server m).1.stream_cache
  unfolding ask_manager get_stream get_stream_by_endpoints open_cache make_stream
  ask_manager-Distinct bs (by_id id) m d = erase_if-Distinct (expired aether m) m.stream_cache d
  ask_manager-Distinct bs (by_endpoints es) m d = d

  -- What an update of an action leaves: an action that is ready, a cache in which no id stands twice,
  -- and a stream if it reports a result.
  abbrev pub IsUpdated : UpdateStatus × StreamGetAction aether sm × Manager aether → Type 0
  IsUpdated (status, action, m) =
      IsReady action
      × Distinct m.stream_cache
      × (status ≡ result → action_stream aether sm action ≢ none)

  -- The same, of a request.
  abbrev OfRequest : UpdateStatus × Request aether sm × Manager aether → Type 0
  OfRequest (status, r, m) = IsUpdated (status, request r, m)

  finish-IsUpdated :
      (server : Server) (r : Request aether sm) (m : Manager aether)
      → Distinct m.stream_cache
      → OfRequest (pending, (finish aether sm server r m).0, (finish aether sm server r m).1)
  unfolding finish make_stream cache_stream
  finish-IsUpdated server r m d =
      (λ _ e. cc, emplace-Distinct r.server_id m.next_stream m.stream_cache d, λ e. cc)

  check_exists-IsUpdated :
      (r : Request aether sm) (m : Manager aether)
      → Distinct m.stream_cache
      → OfRequest (pending, (check_exists aether sm r m).0, (check_exists aether sm r m).1)
  check_exists-IsUpdated r m d = elim (Option-cases (aether.get_server r.server_id m.servers)) [
    | inr (server, e) ↦
        rw (check_exists_known aether sm r m server e) (finish-IsUpdated server r m d)
    | inl e ↦
        rw (check_exists_unknown aether sm r m e)
          (λ q. cc (sm.current-set request_server r.state, q), d, λ q. cc)
  ]

  on_state-IsUpdated :
      (s : RequestState) (r : Request aether sm) (m : Manager aether)
      → current r.state ≡ s
      → IsReady (request r)
      → Distinct m.stream_cache
      → OfRequest (on_state aether sm s (acquired aether sm r) m)
  unfolding on_state
  on_state-IsUpdated check_server_exists r m e ready d =
      check_exists-IsUpdated (acquired aether sm r) m d
  on_state-IsUpdated request_server r m e ready d =
      (λ q. ready (sym (sm.current-acquire r.state) ∙ q), d, λ q. cc)
  on_state-IsUpdated got_result r m e ready d = (λ q. ready e, d, λ q. ready e)
  on_state-IsUpdated got_error r m e ready d =
      (λ q. ready (sym (sm.current-acquire r.state) ∙ q), d, λ q. cc)

  update-IsUpdated :
      (r : Request aether sm) (m : Manager aether)
      → IsReady (request r)
      → Distinct m.stream_cache
      → OfRequest (update aether sm r m)
  update-IsUpdated r m ready d = elim (Bool-cases (changed r.state)) [
    | inl c ↦
        rw (update_changed aether sm r m (current r.state) c refl)
          (on_state-IsUpdated (current r.state) r m refl ready d)
    | inr c ↦ rw (update_idle aether sm r m c) (ready, d, λ q. cc)
  ]

  pub update_manager-IsUpdated :
      (bs : BufferStream) (action : StreamGetAction aether sm) (m : Manager aether)
      → IsReady action
      → Distinct m.stream_cache
      → IsUpdated (update_manager aether sm bs action m)
  unfolding update_manager
  update_manager-IsUpdated bs (existing stream) m ready d = (ready, d, λ _. ready)
  update_manager-IsUpdated bs (request r) m ready d = update-IsUpdated r m ready d

  pub on_servers-IsUpdated :
      (sds : List ServerDescriptor) (r r' : Request aether sm) (m m' : Manager aether)
      → Distinct m.stream_cache
      → on_servers aether sm sds r m ≡ some (r', m')
      → IsReady (request r') × Distinct m'.stream_cache
  unfolding on_servers
  on_servers-IsUpdated [] r r' m m' d e = cc
  on_servers-IsUpdated (sd ∷ sds) r r' m m' d e =
      let es : ServerEndpoints = record { endpoints = endpoints_of_ips sd.ips } in
      let (server, a) = build_server aether sd.server_id es m.servers in
      let f = finish-IsUpdated server r (record m { servers = a }) d in subst Kept e (f.0, f.1)
    where
      Kept : Option (Request aether sm × Manager aether) → Type 0
      Kept none = ⊥
      Kept (some (q, n)) = IsReady (request q) × Distinct n.stream_cache

  pub on_servers_error-IsReady :
      (r : Request aether sm) → IsReady (request (on_servers_error aether sm r))
  unfolding on_servers_error
  on_servers_error-IsReady r q = cc (sm.current-set got_error r.state, q)
