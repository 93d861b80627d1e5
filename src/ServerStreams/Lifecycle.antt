-- ===== src/ServerStreams/Lifecycle.antt =====
-- A request from its start to its end (RequestServerStreamGetAction of
-- libs/gateway/server_stream_manager.cpp).
use aether_gateway.Prelude.{ℕ, ◌≡◌, ◌≢◌, ◌∙◌, refl, sym, ap, true, false, List, ◌∷◌, none, some}
use aether_gateway.Aether.{ServerEndpoints, pending, result, error}
use aether_gateway.Aether.StateMachine.{StateMachine}
use aether_gateway.Aether.Servers.{Server, AetherServers}
use aether_gateway.ServerStreams.{
  Manager, RequestState, check_server_exists, request_server, got_result, got_error, Request,
  new_request, ServerDescriptor, endpoints_of_ips, build_server, finish, on_state, update,
  on_servers, on_servers_error,
}
use aether_gateway.ServerStreams.Building.{build_server_id}
use aether_gateway.ServerStreams.Invariant.{IsValid, Serves, servers-IsValid}
use aether_gateway.ServerStreams.Requests.{
  acquired, update_changed, update_first, update_idle, update-IsDone, finish-IsDone, finish-IsValid,
  new_request_current, acquired_current, check_exists_known, check_exists_unknown,
}

module _ (aether : AetherServers) (sm : StateMachine RequestState) where
  open sm use {current, changed}

  -- A request that has asked the cloud for its server and has had no reply yet.
  pub record IsWaiting (id : ℕ) (r : Request aether sm) : Type 0 where
    pub state : current r.state ≡ request_server
    pub silent : changed r.state ≡ false
    pub asked : r.server_id ≡ id
    pub requested : r.requested ≡ true
    pub empty : r.stream ≡ none

  -- In a valid manager, a request for a server that the application knows makes a stream of that
  -- server in its first update, and reports the result with it in the second; the manager stays
  -- valid.
  pub request_known :
      (id : ℕ) (m : Manager aether) (server : Server)
      → IsValid aether m
      → aether.get_server id m.servers ≡ some server
      → let (u, r, m1) = update aether sm (new_request aether sm id) m in
        let (u', r', m2) = update aether sm r m1 in
        (u ≡ pending)
        × (u' ≡ result)
        × ((h : ℕ) × (r'.stream ≡ some h) × Serves aether m2 h id)
        × IsValid aether m2
  unfolding new_request
  request_known id m server v e =
      let r0 = acquired aether sm (new_request aether sm id) in
      let same = aether.get_server_id id m.servers server e in
      let q =
        update_first aether sm id m
        ∙ ap (λ f. (pending, f.0, f.1)) (check_exists_known aether sm r0 m server e) in
      let ne : current r0.state ≢ got_result = λ x. cc (
        acquired_current aether sm (new_request aether sm id) check_server_exists
            (new_request_current aether sm id),
        x,
      ) in
      let d = update-IsDone aether sm id _ _ (finish-IsDone aether sm server r0 m v same ne) in
      (rw q, rw q d.0, rw q d.2, rw q (rw d.1 (finish-IsValid aether sm server r0 m v same)))

  -- The request after its first and its second update, where the server is not known.
  abbrev pub looked_up : ℕ → Request aether sm
  looked_up id =
      let r = acquired aether sm (new_request aether sm id) in
      record r { state = sm.set request_server r.state }

  abbrev pub sent : ℕ → Request aether sm
  sent id = record (acquired aether sm (looked_up id)) { requested = true }

  first_update :
      (id : ℕ) (m : Manager aether)
      → aether.get_server id m.servers ≡ none
      → update aether sm (new_request aether sm id) m ≡ (pending, looked_up id, m)
  unfolding new_request
  first_update id m e =
      update_first aether sm id m
      ∙ ap (λ f. (pending, f.0, f.1))
          (check_exists_unknown aether sm (acquired aether sm (new_request aether sm id)) m e)

  second_update :
      (id : ℕ) (m : Manager aether) → update aether sm (looked_up id) m ≡ (pending, sent id, m)
  unfolding on_state
  second_update id m =
      let before = acquired aether sm (new_request aether sm id) in
      let ne : request_server ≢ current before.state = λ x. cc (
        acquired_current aether sm (new_request aether sm id) check_server_exists
            (new_request_current aether sm id),
        x,
      ) in
      update_changed aether sm (looked_up id) m request_server
        (sm.changed-set request_server before.state ne) (sm.current-set request_server before.state)

  pub sent-IsWaiting : (id : ℕ) → IsWaiting id (sent id)
  unfolding new_request
  sent-IsWaiting id = record {
    state =
        acquired_current aether sm (looked_up id) request_server (sm.current-set request_server _);
    silent = sm.changed-acquire (looked_up id).state;
    asked = refl;
    requested = refl;
    empty = refl;
  }

  -- A request for a server that the application does not know asks the cloud in its second update
  -- and then waits: the manager is as it was, and a further update does nothing.
  pub request_unknown :
      (id : ℕ) (m : Manager aether)
      → aether.get_server id m.servers ≡ none
      → let (u, r, m1) = update aether sm (new_request aether sm id) m in
        let (u', r', m2) = update aether sm r m1 in
        (u ≡ pending)
        × (u' ≡ pending)
        × (m2 ≡ m)
        × IsWaiting id r'
        × (update aether sm r' m2 ≡ (pending, r', m2))
  request_unknown id m e =
      let q = first_update id m e in
      let q' = second_update id m in
      let w = sent-IsWaiting id in
      (
        rw q,
        rw (q, q'),
        rw (q, q'),
        rw (q, q') w,
        rw (q, q') (update_idle aether sm (sent id) m w.silent),
      )

  -- In a valid manager, where the cloud's reply to a waiting request names first the server that
  -- was asked for, the next update reports the result, with a stream of that server; the manager
  -- stays valid.
  pub request_answered :
      (id : ℕ) (r : Request aether sm) (m : Manager aether) (sd : ServerDescriptor)
      (sds : List ServerDescriptor)
      → IsValid aether m
      → IsWaiting id r
      → sd.server_id ≡ id
      → (r' : Request aether sm) × (m' : Manager aether) × (on_servers aether sm (sd ∷ sds) r m
          ≡ some (r', m'))
        × ((update aether sm r' m').0 ≡ result)
        × ((h : ℕ) × ((update aether sm r' m').1.stream ≡ some h)
            × Serves aether (update aether sm r' m').2 h id)
        × IsValid aether (update aether sm r' m').2
  unfolding on_servers
  request_answered id r m sd sds v w q =
      let es : ServerEndpoints = record { endpoints = endpoints_of_ips sd.ips } in
      let (server, a) = build_server aether sd.server_id es m.servers in
      let m1 : Manager aether = record m { servers = a } in
      let v1 = servers-IsValid aether a m v in
      let same = build_server_id aether sd.server_id es m.servers ∙ q ∙ sym w.asked in
      let ne : current r.state ≢ got_result = λ x. cc (w.state, x) in
      let d =
        update-IsDone aether sm r.server_id _ _ (finish-IsDone aether sm server r m1 v1 same ne) in
      (
        (finish aether sm server r m1).0,
        (finish aether sm server r m1).1,
        refl,
        d.0,
        rw (← w.asked) d.2,
        rw d.1 (finish-IsValid aether sm server r m1 v1 same),
      )

  -- Where the cloud's request of a waiting request fails, the next update reports an error: there
  -- is no stream, and the manager is as it was.
  pub request_refused :
      (id : ℕ) (r : Request aether sm) (m : Manager aether)
      → IsWaiting id r
      → let (u, r', m') = update aether sm (on_servers_error aether sm r) m in
        (u ≡ error) × (r'.stream ≡ none) × (m' ≡ m)
  unfolding on_servers_error on_state
  request_refused id r m w =
      let ne : got_error ≢ current r.state = λ x. cc (w.state, x) in
      let q =
        update_changed aether sm (on_servers_error aether sm r) m got_error
          (sm.changed-set got_error r.state ne) (sm.current-set got_error r.state) in
      (rw q, rw q w.empty, rw q)
