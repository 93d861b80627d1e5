-- ===== src/GwStream/Known.antt =====
-- A GwStream for a server that the application knows (libs/gateway/gw_stream.cpp,
-- libs/gateway/server_stream_manager.cpp).
use aether_gateway.Prelude.{ℕ, ◌≡◌, ◌∙◌, refl, ap, some}
use aether_gateway.Map.{find, nat_order}
use aether_gateway.Aether.{DataBuffer}
use aether_gateway.Aether.StateMachine.{StateMachine}
use aether_gateway.Aether.Servers.{Server, AetherServers}
use aether_gateway.Aether.BufferStream.{BufferStream}
use aether_gateway.LocalPort.Keys.{by_id}
use aether_gateway.ServerStreams.{RequestState, existing, request, new_request, update}
use aether_gateway.ServerStreams.Invariant.{IsValid}
use aether_gateway.ServerStreams.Lifecycle.{request_known}
use aether_gateway.GwStream.Linked.{update_action_found, update_action_missing}
use aether_gateway.GwStream.Ownership.{W, A, G}
use aether_gateway.GwStream.Tying.{result-IsTied, TiedTo, IsTied-TiedTo, find_kept}
use aether_gateway.GwStream.Asking.{
  IsAsked, cached, requested, asked-IsValid, asked_servers, answer-IsAsked, buffered, new-IsWritten,
}
use aether_gateway.GwStream.{
  new_gw_stream, write, update_action, update_manager, after_update, keep_action, ask_manager,
}

module _ (aether : AetherServers) (sm : StateMachine RequestState) (bs : BufferStream) where
  pub asked_known :
      (h id : ℕ) (server : Server) (action : A aether sm bs) (s : G aether sm bs)
      (w : W aether sm bs)
      → IsValid aether w.manager
      → aether.get_server id w.manager.servers ≡ some server
      → find h w.gw_streams ≡ some s
      → find h w.actions ≡ some action
      → IsAsked aether sm bs id w.manager action
      → (w1 : W aether sm bs) × (w2 : W aether sm bs) × (update_action aether sm bs h w ≡ some w1)
        × (update_action aether sm bs h w1 ≡ some w2)
        × TiedTo aether sm bs h id s w2
  unfolding update_manager after_update keep_action
  asked_known h id server action s w v e f g (cached k serves) =
      let (w', q, t) = result-IsTied aether sm bs h k (existing (some k)) s w refl f in
      (
        w',
        w',
        update_action_found aether sm bs h w (existing (some k)) g ∙ q,
        update_action_missing aether sm bs h w' t.ended,
        IsTied-TiedTo aether sm bs h k id s w w' t serves,
      )
  asked_known h id server action s w v e f g requested =
      let (_, r, m1) = update aether sm (new_request aether sm id) w.manager in
      let (_, r', m2) = update aether sm r m1 in
      let (first, second, (k, stream, serves), _) =
        request_known aether sm id w.manager server v e in
      let w1 = keep_action aether sm bs h (request r) (record w { manager = m1 }) in
      let (w2, q, t) =
        result-IsTied aether sm bs h k (request r') s (record w1 { manager = m2 }) stream f in
      (
        w1,
        w2,
        update_action_found aether sm bs h w action g
            ∙ ap (λ u. after_update aether sm bs h u (request r) (record w { manager = m1 })) first,
        update_action_found aether sm bs h w1 (request r)
              (find_kept aether sm bs h action (request r) (record w { manager = m1 }) g)
            ∙ ap (λ u. after_update aether sm bs h u (request r') (record w1 { manager = m2 }))
                second
            ∙ q,
        IsTied-TiedTo aether sm bs h k id s (record w1 { manager = m2 }) w2 t serves,
      )

  -- A new GwStream that has been written to.
  pub new_known :
      (id : ℕ) (d : DataBuffer) (server : Server) (w : W aether sm bs)
      → IsValid aether w.manager
      → aether.get_server id w.manager.servers ≡ some server
      → let (h, v) = new_gw_stream aether sm bs (by_id id) w in
        (w1 : W aether sm bs) × (w2 : W aether sm bs) × (update_action aether sm bs h
            (write aether sm bs h d v)
          ≡ some w1)
        × (update_action aether sm bs h w1 ≡ some w2)
        × TiedTo aether sm bs h id (buffered aether sm bs (by_id id) d) w2
  unfolding new_gw_stream write
  new_known id d server w v e =
      let (h, u) = new_gw_stream aether sm bs (by_id id) w in
      let n = new-IsWritten aether sm bs (by_id id) d w in
      asked_known h id server (ask_manager aether sm bs (by_id id) w.manager).0
        (buffered aether sm bs (by_id id) d) (write aether sm bs h d u)
        (asked-IsValid aether sm bs id w v)
        (ap (aether.get_server id) (asked_servers aether sm bs id w) ∙ e) n.stream n.action
        (answer-IsAsked aether sm bs id w v)
