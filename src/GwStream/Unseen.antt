-- ===== src/GwStream/Unseen.antt =====
-- What LocalPort does not see: the work of the manager's actions leaves the GwStreams and the servers
-- that they were made for (libs/gateway/gw_stream.cpp).
use mathlib.Core.Option
use aether_gateway.Prelude.{
  ℕ, ◌≡◌, ◌∙◌, refl, ap, Bool, true, false, List, Option, none, some, if◌then◌else◌,
}
use aether_gateway.Map.{find, modify, nat_order, equiv}
use aether_gateway.Map.Laws.{find-modify}
use aether_gateway.Map.Values.{AtValue}
use aether_gateway.Aether.{UpdateStatus}
use aether_gateway.Aether.StateMachine.{StateMachine}
use aether_gateway.Aether.Servers.{AetherServers}
use aether_gateway.Aether.BufferStream.{BufferStream}
use aether_gateway.ServerStreams.{
  Manager, Request, RequestState, existing, request, action_stream, ServerDescriptor, on_servers,
  on_servers_error,
}
use aether_gateway.GwStream.Interface.{serves, server_in, release_keeps}
use aether_gateway.GwStream.Linked.{update_action_missing, update_action_found}
use aether_gateway.GwStream.Ownership.{W, A, G}
use aether_gateway.GwStream.{
  update_manager, link, on_result, end_action, keep_action, after_update, update_action,
  servers_reply, servers_error,
}

module _ (aether : AetherServers) (sm : StateMachine RequestState) (bs : BufferStream) where
  pub record SameStreams (w u : W aether sm bs) : Type 0 where
    pub serves_same : (h : ℕ) → serves aether sm bs u h ≡ serves aether sm bs w h
    pub handle_same : u.next_handle ≡ w.next_handle

  pub modified-SameStreams :
      (h : ℕ) (f : G aether sm bs → G aether sm bs) (w : W aether sm bs)
      → ((s : G aether sm bs) → (f s).server ≡ s.server)
      → SameStreams w (record w { gw_streams = modify h f w.gw_streams })
  modified-SameStreams h f w same = record {
    serves_same = λ j.
        ap (server_in aether sm bs) (find-modify j h f w.gw_streams)
        ∙ kept (equiv h j) (find j w.gw_streams);
    handle_same = refl;
  }
    where
      kept :
          (b : Bool) (o : Option (G aether sm bs))
          → server_in aether sm bs (if b then Option.map f o else o) ≡ server_in aether sm bs o
      kept true none = refl
      kept true (some s) = ap some (same s)
      kept false o = refl

  on_result-SameStreams :
      (h : ℕ) (o : Option ℕ) (w : W aether sm bs)
      → AtValue (SameStreams w) (on_result aether sm bs h o w)
  unfolding on_result
  on_result-SameStreams h o w = branch (find h w.gw_streams) o
    where
      branch :
          (f : Option (G aether sm bs)) (o : Option ℕ)
          → AtValue (SameStreams w) (elim f [
            | none ↦ some w
            | some s ↦ elim o [
              | none ↦ none
              | some k ↦
                  some (record w { gw_streams = modify h (link aether sm bs k) w.gw_streams })
            ]
          ])
      branch none o = record { serves_same = λ j. refl; handle_same = refl }
      branch (some s) none = tt
      branch (some s) (some k) = modified-SameStreams h (link aether sm bs k) w (λ s. refl)

  ended-SameStreams :
      (h : ℕ) (action : A aether sm bs) (w : W aether sm bs)
      → SameStreams w (end_action aether sm bs h action w)
  unfolding end_action
  ended-SameStreams h action w =
      let k = release_keeps aether sm bs (action_stream aether sm action) _ in
      record {
        serves_same = λ j. ap (λ m. server_in aether sm bs (find j m)) k.0;
        handle_same = k.1;
      }

  after_update-SameStreams :
      (h : ℕ) (status : UpdateStatus) (action : A aether sm bs) (w : W aether sm bs)
      → AtValue (SameStreams w) (after_update aether sm bs h status action w)
  unfolding after_update keep_action
  after_update-SameStreams h UpdateStatus.pending action w = record {
    serves_same = λ j. refl;
    handle_same = refl;
  }
  after_update-SameStreams h UpdateStatus.result action w =
      ended
        (on_result aether sm bs h (action_stream aether sm action)
          (keep_action aether sm bs h action w))
        (on_result-SameStreams h (action_stream aether sm action)
          (keep_action aether sm bs h action w))
    where
      ended :
          (o : Option (W aether sm bs))
          → AtValue (SameStreams (keep_action aether sm bs h action w)) o
          → AtValue (SameStreams w) (Option.map (end_action aether sm bs h action) o)
      ended none all = tt
      ended (some u) s =
          let t = ended-SameStreams h action u in
          record {
            serves_same = λ j. t.serves_same j ∙ s.serves_same j;
            handle_same = t.handle_same ∙ s.handle_same;
          }
  after_update-SameStreams h UpdateStatus.error action w = ended-SameStreams h action w
  after_update-SameStreams h UpdateStatus.stop action w = ended-SameStreams h action w

  pub update_action-SameStreams :
      (h : ℕ) (w : W aether sm bs) → AtValue (SameStreams w) (update_action aether sm bs h w)
  update_action-SameStreams h w = branch (find h w.actions) refl
    where
      branch :
          (o : Option (A aether sm bs))
          → find h w.actions ≡ o
          → AtValue (SameStreams w) (update_action aether sm bs h w)
      branch none e =
          rw (update_action_missing aether sm bs h w e)
            (record { serves_same = λ j. refl; handle_same = refl })
      branch (some action) e =
          let u = update_manager aether sm bs action w.manager in
          rw (update_action_found aether sm bs h w action e) (
            moved u.2 (after_update aether sm bs h u.0 u.1 (record w { manager = u.2 }))
              (after_update-SameStreams h u.0 u.1 (record w { manager = u.2 })))
        where
          moved :
              (n : Manager aether) (o : Option (W aether sm bs))
              → AtValue (SameStreams (record w { manager = n })) o
              → AtValue (SameStreams w) o
          moved n none all = tt
          moved n (some v) s = record { serves_same = s.serves_same; handle_same = s.handle_same }

  pub servers_reply-SameStreams :
      (h : ℕ) (sds : List ServerDescriptor) (w : W aether sm bs)
      → AtValue (SameStreams w) (servers_reply aether sm bs h sds w)
  unfolding servers_reply keep_action
  servers_reply-SameStreams h sds w = branch (find h w.actions)
    where
      replied :
          (o : Option (Request aether sm × Manager aether))
          → AtValue (SameStreams w) (elim o [
            | none ↦ none
            | some (r', m') ↦
                some (keep_action aether sm bs h (request r') (record w { manager = m' }))
          ])
      replied none = tt
      replied (some (r', m')) = record { serves_same = λ j. refl; handle_same = refl }

      branch :
          (o : Option (A aether sm bs))
          → AtValue (SameStreams w) (elim o [
            | none ↦ some w
            | some action ↦ elim action [
              | existing stream ↦ some w
              | request r ↦ elim (on_servers aether sm sds r w.manager) [
                | none ↦ none
                | some (r', m') ↦
                    some (keep_action aether sm bs h (request r') (record w { manager = m' }))
              ]
            ]
          ])
      branch none = record { serves_same = λ j. refl; handle_same = refl }
      branch (some (existing stream)) = record { serves_same = λ j. refl; handle_same = refl }
      branch (some (request r)) = replied (on_servers aether sm sds r w.manager)

  pub servers_error-SameStreams :
      (h : ℕ) (w : W aether sm bs) → SameStreams w (servers_error aether sm bs h w)
  unfolding servers_error keep_action
  servers_error-SameStreams h w = branch (find h w.actions)
    where
      branch :
          (o : Option (A aether sm bs))
          → SameStreams w (elim o [
            | none ↦ w
            | some action ↦ elim action [
              | existing stream ↦ w
              | request r ↦ keep_action aether sm bs h (request (on_servers_error aether sm r)) w
            ]
          ])
      branch none = record { serves_same = λ j. refl; handle_same = refl }
      branch (some (existing stream)) = record { serves_same = λ j. refl; handle_same = refl }
      branch (some (request r)) = record { serves_same = λ j. refl; handle_same = refl }
