-- ===== src/GwStream/Given.antt =====
-- What the manager hands out: streams that were made and are not expired (libs/gateway/gw_stream.cpp,
-- libs/gateway/server_stream_manager.cpp).
use aether_gateway.Prelude.{
  ℕ, ◌+◌, ◌≡◌, ◌≤◌, ◌<◌, refl, List, [], ◌∷◌, true, false, Option, none, some, All, arith,
  Bool-cases, Option-cases, inl, inr,
}
use aether_gateway.Map.{find, nat_order}
use aether_gateway.Map.Values.{
  AllValues, AtValue, AllValues-find, AllValues-emplace, AllValues-erase_if, All-map,
}
use aether_gateway.Aether.StateMachine.{StateMachine}
use aether_gateway.Aether.Servers.{Server, AetherServers}
use aether_gateway.Aether.BufferStream.{BufferStream}
use aether_gateway.LocalPort.Keys.{ServeKind, by_id, by_endpoints}
use aether_gateway.ServerStreams.{
  Manager, RequestState, check_server_exists, request_server, got_result, got_error, Request,
  StreamGetAction, existing, request, get_stream, get_stream_by_endpoints, action_stream, expired,
  contains, lock, update, on_state, check_exists, finish, make_stream, cache_stream, open_cache,
  new_request, ServerDescriptor, on_servers,
}
use aether_gateway.ServerStreams.Requests.{
  update_changed, update_idle, acquired, check_exists_known, check_exists_unknown,
}
use aether_gateway.GwStream.{ask_manager, update_manager}

module _ (aether : AetherServers) (sm : StateMachine RequestState) where
  -- A stream that was made and has not expired.
  abbrev pub IsLive : Manager aether → ℕ → Type 0
  IsLive m k = (k < m.next_stream) × (expired aether m k ≡ false)

  -- What the manager knows of streams that were made: the expired and the cached ones.
  abbrev pub IsBounded : Manager aether → Type 0
  IsBounded m =
      All (λ k. k < m.next_stream) m.gone × AllValues (λ k. k < m.next_stream) m.stream_cache

  abbrev pub Grows : Manager aether → Manager aether → Type 0
  Grows m n = (n.gone ≡ m.gone) × (m.next_stream ≤ n.next_stream)

  pub IsLive-Grows : (m n : Manager aether) (k : ℕ) → Grows m n → IsLive m k → IsLive n k
  unfolding expired
  IsLive-Grows m n k (g, le) (lt, live) = (omega arith, rw g live)

  contains-above : (n k : ℕ) (ks : List ℕ) → All (λ j. j < n) ks → n ≤ k → contains k ks ≡ false
  unfolding contains
  contains-above n k [] all le = refl
  contains-above n k (j ∷ ks) (lt, all) le = ground (arith, contains-above n k ks all le)

  -- A new stream.
  pub make_stream-IsLive :
      (server : Server) (m : Manager aether)
      → IsBounded m
      → let (k, n) = make_stream aether server m in IsLive n k × Grows m n × IsBounded n
  unfolding make_stream expired
  make_stream-IsLive server m (gone, cached) = (
    (omega arith, contains-above m.next_stream m.next_stream m.gone gone (omega arith)),
    (refl, omega arith),
    (
      All-map (λ k lt. omega arith) m.gone gone,
      All-map (λ e lt. omega arith) m.stream_cache cached,
    ),
  )

  -- The stream of an action is live, and the manager has lost none.
  abbrev pub IsGiven : Manager aether → StreamGetAction aether sm → Manager aether → Type 0
  IsGiven m action n = AtValue (IsLive n) (action_stream aether sm action) × Grows m n × IsBounded n

  lock-IsLive :
      (m : Manager aether) (k : ℕ) → k < m.next_stream → AtValue (IsLive m) (lock aether m k)
  unfolding lock
  lock-IsLive m k lt = elim (Bool-cases (expired aether m k)) [
    | inl dead ↦ rw dead tt
    | inr live ↦ rw live (lt, live)
  ]

  get_stream-IsGiven :
      (id : ℕ) (m : Manager aether)
      → IsBounded m
      → IsGiven m (get_stream aether sm id true m).0 (get_stream aether sm id true m).1
  unfolding get_stream open_cache new_request
  get_stream-IsGiven id m (gone, cached) =
      let kept =
        AllValues-erase_if (λ k. k < m.next_stream) (expired aether m) m.stream_cache cached in
      (
        given (find id (open_cache aether m).stream_cache)
            (AllValues-find (λ k. k < m.next_stream) id (open_cache aether m).stream_cache kept),
        (refl, omega arith),
        (gone, kept),
      )
    where
      given :
          (o : Option ℕ)
          → AtValue (λ k. k < m.next_stream) o
          → AtValue (IsLive (open_cache aether m)) (
              action_stream aether sm (elim o [
                | some h ↦ existing (lock aether (open_cache aether m) h)
                | none ↦ request (new_request aether sm id)
              ]))
      given none lt = tt
      given (some k) lt = lock-IsLive (open_cache aether m) k lt

  pub ask_manager-IsGiven :
      (bs : BufferStream) (server : ServeKind) (m : Manager aether)
      → IsBounded m
      → IsGiven m (ask_manager aether sm bs server m).0 (ask_manager aether sm bs server m).1
  unfolding ask_manager get_stream_by_endpoints
  ask_manager-IsGiven bs (by_id id) m b = get_stream-IsGiven id m b
  ask_manager-IsGiven bs (by_endpoints es) m b = make_stream-IsLive _ (record m { servers = _ }) b

  abbrev RequestGiven : Manager aether → Request aether sm × Manager aether → Type 0
  RequestGiven m (r, n) = IsGiven m (request r) n

  pub finish-IsGiven :
      (server : Server) (r : Request aether sm) (m : Manager aether)
      → IsBounded m
      → RequestGiven m (finish aether sm server r m)
  unfolding finish cache_stream make_stream
  finish-IsGiven server r m b =
      let (live, grows, b') = make_stream-IsLive server m b in
      (
        IsLive-Grows (make_stream aether server m).1 (finish aether sm server r m).1 m.next_stream
            (refl, omega arith) live,
        grows,
        (
          b'.0,
          AllValues-emplace (λ k. k < m.next_stream + 1) r.server_id m.next_stream m.stream_cache
              (omega arith) b'.1,
        ),
      )

  check_exists-IsGiven :
      (r : Request aether sm) (m : Manager aether)
      → IsBounded m
      → AtValue (IsLive m) r.stream
      → RequestGiven m (check_exists aether sm r m)
  check_exists-IsGiven r m b live = elim (Option-cases (aether.get_server r.server_id m.servers)) [
    | inr (server, e) ↦ rw (check_exists_known aether sm r m server e) (finish-IsGiven server r m b)
    | inl e ↦ rw (check_exists_unknown aether sm r m e) (live, (refl, omega arith), b)
  ]

  on_state-IsGiven :
      (s : RequestState) (r : Request aether sm) (m : Manager aether)
      → IsBounded m
      → AtValue (IsLive m) r.stream
      → let (_, r', n) = on_state aether sm s r m in RequestGiven m (r', n)
  unfolding on_state
  on_state-IsGiven check_server_exists r m b live = check_exists-IsGiven r m b live
  on_state-IsGiven request_server r m b live = (live, (refl, omega arith), b)
  on_state-IsGiven got_result r m b live = (live, (refl, omega arith), b)
  on_state-IsGiven got_error r m b live = (live, (refl, omega arith), b)

  update-IsGiven :
      (r : Request aether sm) (m : Manager aether)
      → IsBounded m
      → AtValue (IsLive m) r.stream
      → let (_, r', n) = update aether sm r m in RequestGiven m (r', n)
  update-IsGiven r m b live = elim (Bool-cases (sm.changed r.state)) [
    | inl c ↦
        rw (update_changed aether sm r m (sm.current r.state) c refl)
          (on_state-IsGiven (sm.current r.state) (acquired aether sm r) m b live)
    | inr c ↦ rw (update_idle aether sm r m c) (live, (refl, omega arith), b)
  ]

  pub update_manager-IsGiven :
      (bs : BufferStream) (action : StreamGetAction aether sm) (m : Manager aether)
      → IsBounded m
      → AtValue (IsLive m) (action_stream aether sm action)
      → let (_, action', n) = update_manager aether sm bs action m in IsGiven m action' n
  unfolding update_manager
  update_manager-IsGiven bs (existing stream) m b live = (live, (refl, omega arith), b)
  update_manager-IsGiven bs (request r) m b live = update-IsGiven r m b live

  pub on_servers-IsGiven :
      (sds : List ServerDescriptor) (r : Request aether sm) (m : Manager aether)
      → IsBounded m
      → AtValue (RequestGiven m) (on_servers aether sm sds r m)
  unfolding on_servers
  on_servers-IsGiven [] r m b = tt
  on_servers-IsGiven (sd ∷ sds) r m b = finish-IsGiven _ r (record m { servers = _ }) b
