-- ===== src/GwStream/Answered.antt =====
-- A GwStream for a server that the application does not know, and the cloud's reply
-- (libs/gateway/gw_stream.cpp, libs/gateway/server_stream_manager.cpp).
use aether_gateway.Prelude.{ℕ, ◌≡◌, ◌∙◌, sym, ap, subst, List, ◌∷◌, none, some}
use aether_gateway.Map.{find, nat_order}
use aether_gateway.Aether.{DataBuffer}
use aether_gateway.Aether.StateMachine.{StateMachine}
use aether_gateway.Aether.Servers.{AetherServers}
use aether_gateway.Aether.BufferStream.{BufferStream}
use aether_gateway.LocalPort.Keys.{by_id}
use aether_gateway.ServerStreams.{
  Manager, RequestState, ServerDescriptor, Request, request, new_request, update, on_servers,
}
use aether_gateway.ServerStreams.Invariant.{IsValid}
use aether_gateway.ServerStreams.Cache.{get_stream_cached}
use aether_gateway.ServerStreams.Lifecycle.{request_unknown, request_answered}
use aether_gateway.GwStream.Linked.{update_action_found}
use aether_gateway.GwStream.Ownership.{W, G}
use aether_gateway.GwStream.Tying.{result-IsTied, TiedTo, IsTied-TiedTo, find_kept}
use aether_gateway.GwStream.Asking.{asked-IsValid, asked_servers, buffered, new-IsWritten}
use aether_gateway.GwStream.{
  new_gw_stream, write, update_action, update_manager, after_update, keep_action, servers_reply,
  ask_manager,
}

module _ (aether : AetherServers) (sm : StateMachine RequestState) (bs : BufferStream) where
  -- GwStream h, by two updates, a reply and an update.
  abbrev pub Answered :
      ℕ → List ServerDescriptor → W aether sm bs → (W aether sm bs → Type 0) → Type 0
  Answered h sds w P =
      (w1 w2 w3 w4 : W aether sm bs) × (update_action aether sm bs h w ≡ some w1)
      × (update_action aether sm bs h w1 ≡ some w2)
      × (servers_reply aether sm bs h sds w2 ≡ some w3)
      × (update_action aether sm bs h w3 ≡ some w4)
      × P w4

  servers_reply_found :
      (h : ℕ) (sds : List ServerDescriptor) (r r' : Request aether sm) (m' : Manager aether)
      (w : W aether sm bs)
      → find h w.actions ≡ some (request r)
      → on_servers aether sm sds r w.manager ≡ some (r', m')
      → servers_reply aether sm bs h sds w
        ≡ some (keep_action aether sm bs h (request r') (record w { manager = m' }))
  unfolding servers_reply
  servers_reply_found h sds r r' m' w e f = rw (e, servers_reply, f)

  asked_answered :
      (h id : ℕ) (sd : ServerDescriptor) (sds : List ServerDescriptor) (s : G aether sm bs)
      (w : W aether sm bs)
      → IsValid aether w.manager
      → aether.get_server id w.manager.servers ≡ none
      → sd.server_id ≡ id
      → find h w.gw_streams ≡ some s
      → find h w.actions ≡ some (request (new_request aether sm id))
      → Answered h (sd ∷ sds) w (TiedTo aether sm bs h id s)
  unfolding update_manager after_update keep_action
  asked_answered h id sd sds s w v e q f g =
      let r0 = new_request aether sm id in
      let (_, r, m1) = update aether sm r0 w.manager in
      let (_, r', m2) = update aether sm r m1 in
      let (first, second, same, waiting, _) = request_unknown aether sm id w.manager e in
      let v2 = subst (IsValid aether) (sym same) v in
      let (r3, m3, reply, done, (k, stream, serves), _) =
        request_answered aether sm id r' m2 sd sds v2 waiting q in
      let (_, r4, m4) = update aether sm r3 m3 in
      let w1 = keep_action aether sm bs h (request r) (record w { manager = m1 }) in
      let w2 = keep_action aether sm bs h (request r') (record w1 { manager = m2 }) in
      let w3 = keep_action aether sm bs h (request r3) (record w2 { manager = m3 }) in
      let g1 = find_kept aether sm bs h (request r0) (request r) (record w { manager = m1 }) g in
      let g2 = find_kept aether sm bs h (request r) (request r') (record w1 { manager = m2 }) g1 in
      let g3 = find_kept aether sm bs h (request r') (request r3) (record w2 { manager = m3 }) g2 in
      let (w4, tied, t) =
        result-IsTied aether sm bs h k (request r4) s (record w3 { manager = m4 }) stream f in
      (
        w1,
        w2,
        w3,
        w4,
        update_action_found aether sm bs h w (request r0) g
            ∙ ap (λ u. after_update aether sm bs h u (request r) (record w { manager = m1 })) first,
        update_action_found aether sm bs h w1 (request r) g1
            ∙ ap (λ u. after_update aether sm bs h u (request r') (record w1 { manager = m2 }))
                second,
        servers_reply_found h (sd ∷ sds) r' r3 m3 w2 g2 reply,
        update_action_found aether sm bs h w3 (request r3) g3
            ∙ ap (λ u. after_update aether sm bs h u (request r4) (record w3 { manager = m4 })) done
            ∙ tied,
        IsTied-TiedTo aether sm bs h k id s (record w3 { manager = m4 }) w4 t serves,
      )

  -- The answer of the manager where nothing is cached.
  requested_anew :
      (id : ℕ) (w : W aether sm bs)
      → IsValid aether w.manager
      → find id w.manager.stream_cache ≡ none
      → (ask_manager aether sm bs (by_id id) w.manager).0 ≡ request (new_request aether sm id)
  unfolding ask_manager
  requested_anew id w v e = get_stream_cached aether sm id w.manager v.distinct ∙ rw e

  -- A new GwStream that has been written to.
  pub new_answered :
      (id : ℕ) (d : DataBuffer) (sd : ServerDescriptor) (sds : List ServerDescriptor)
      (w : W aether sm bs)
      → IsValid aether w.manager
      → aether.get_server id w.manager.servers ≡ none
      → find id w.manager.stream_cache ≡ none
      → sd.server_id ≡ id
      → let (h, v) = new_gw_stream aether sm bs (by_id id) w in
        Answered h
          (sd ∷ sds)
          (write aether sm bs h d v)
          (TiedTo aether sm bs h id (buffered aether sm bs (by_id id) d))
  unfolding new_gw_stream write
  new_answered id d sd sds w v e uncached q =
      let (h, u) = new_gw_stream aether sm bs (by_id id) w in
      let n = new-IsWritten aether sm bs (by_id id) d w in
      asked_answered h id sd sds (buffered aether sm bs (by_id id) d) (write aether sm bs h d u)
        (asked-IsValid aether sm bs id w v)
        (ap (aether.get_server id) (asked_servers aether sm bs id w) ∙ e) q n.stream
        (n.action ∙ ap some (requested_anew id w v uncached))
