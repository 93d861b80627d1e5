-- ===== src/ServerStreams/Requests.antt =====
-- RequestServerStreamGetAction: its steps, and what it ends with
-- (libs/gateway/server_stream_manager.cpp).
use aether_gateway.Prelude.{ℕ, ◌≡◌, ◌≢◌, ◌∙◌, refl, sym, true, false, none, some}
use aether_gateway.Map.{nat_order}
use aether_gateway.Aether.{pending, result}
use aether_gateway.Aether.StateMachine.{StateMachine}
use aether_gateway.Aether.Servers.{Server, AetherServers}
use aether_gateway.ServerStreams.{
  Manager, RequestState, check_server_exists, request_server, got_result, Request, new_request,
  make_stream, cache_stream, finish, check_exists, on_state, update,
}
use aether_gateway.ServerStreams.Invariant.{
  IsValid, Serves, make_stream-Serves, make_stream-IsValid, cache_stream-IsValid,
}

module _ (aether : AetherServers) (sm : StateMachine RequestState) where
  open sm use {current, changed, acquire}

  -- The request with its state acquired.
  abbrev pub acquired : Request aether sm → Request aether sm
  acquired r = record r { state = (acquire r.state).1 }

  pub update_changed :
      (r : Request aether sm) (m : Manager aether) (s : RequestState)
      → changed r.state ≡ true
      → current r.state ≡ s
      → update aether sm r m ≡ on_state aether sm s (acquired r) m
  unfolding update
  update_changed r m s c e = rw (c, sm.acquire_state r.state, e)

  -- Nothing happens until the state changes.
  pub update_idle :
      (r : Request aether sm) (m : Manager aether)
      → changed r.state ≡ false
      → update aether sm r m ≡ (pending, r, m)
  unfolding update
  update_idle r m c = rw c

  -- A request that is done, or is about to say so.
  pub record IsDone (id : ℕ) (r : Request aether sm) (m : Manager aether) : Type 0 where
    pub state : current r.state ≡ got_result
    pub news : changed r.state ≡ true
    pub asked : r.server_id ≡ id
    pub stream : (h : ℕ) × (r.stream ≡ some h) × Serves aether m h id

  pub finish-IsDone :
      (server : Server) (r : Request aether sm) (m : Manager aether)
      → IsValid aether m
      → server.server_id ≡ r.server_id
      → current r.state ≢ got_result
      → IsDone r.server_id (finish aether sm server r m).0 (finish aether sm server r m).1
  unfolding finish cache_stream make_stream
  finish-IsDone server r m v q ne = record {
    state = sm.current-set got_result r.state;
    news = sm.changed-set got_result r.state (λ e. ne (sym e));
    asked = refl;
    stream = (m.next_stream, refl, (server, make_stream-Serves aether server m v, q));
  }

  pub finish-IsValid :
      (server : Server) (r : Request aether sm) (m : Manager aether)
      → IsValid aether m
      → server.server_id ≡ r.server_id
      → IsValid aether (finish aether sm server r m).1
  unfolding finish
  finish-IsValid server r m v q =
      cache_stream-IsValid aether r.server_id _ _ (make_stream-IsValid aether server m v)
        (server, make_stream-Serves aether server m v, q)

  -- A finished request reports its result, with the stream.
  pub update-IsDone :
      (id : ℕ) (r : Request aether sm) (m : Manager aether)
      → IsDone id r m
      → let (u, r', m') = update aether sm r m in
        (u ≡ result) × (m' ≡ m) × ((h : ℕ) × (r'.stream ≡ some h) × Serves aether m' h id)
  unfolding on_state
  update-IsDone id r m d =
      let q = update_changed r m got_result d.news d.state in (rw q, rw q, rw q d.stream)

  pub new_request_changed : (id : ℕ) → changed (new_request aether sm id).state ≡ true
  unfolding new_request
  new_request_changed id = sm.changed-start check_server_exists

  pub new_request_current :
      (id : ℕ) → current (new_request aether sm id).state ≡ check_server_exists
  unfolding new_request
  new_request_current id = sm.current-start check_server_exists

  -- The first update looks the server up.
  pub update_first :
      (id : ℕ) (m : Manager aether)
      → update aether sm (new_request aether sm id) m ≡ (
          let (r', m') = check_exists aether sm (acquired (new_request aether sm id)) m in
          (pending, r', m'))
  unfolding on_state
  update_first id m =
      update_changed _ m check_server_exists (new_request_changed id) (new_request_current id)

  pub acquired_current :
      (r : Request aether sm) (s : RequestState)
      → current r.state ≡ s
      → current (acquired r).state ≡ s
  acquired_current r s e = sm.current-acquire r.state ∙ e

  pub check_exists_known :
      (r : Request aether sm) (m : Manager aether) (server : Server)
      → aether.get_server r.server_id m.servers ≡ some server
      → check_exists aether sm r m ≡ finish aether sm server r m
  unfolding check_exists
  check_exists_known r m server e = rw (e, check_exists)

  pub check_exists_unknown :
      (r : Request aether sm) (m : Manager aether)
      → aether.get_server r.server_id m.servers ≡ none
      → check_exists aether sm r m ≡ (record r { state = sm.set request_server r.state }, m)
  unfolding check_exists
  check_exists_unknown r m e = rw (e, check_exists)
