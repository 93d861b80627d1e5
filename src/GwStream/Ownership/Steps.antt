-- ===== src/GwStream/Ownership/Steps.antt =====
-- Whatever happens to the streams of a gateway, those that are owned stay (libs/gateway/gw_stream.cpp, libs/gateway/server_stream_manager.cpp).
use mathlib.Core.Option
use aether_gateway.Prelude.{ℕ, ◌≡◌, ◌<◌, refl, sym, subst, List, Option, none, some, arith}
use aether_gateway.Map.{find, modify, nat_order}
use aether_gateway.Map.Values.{AtValue, AllValues-find}
use aether_gateway.Aether.{UpdateStatus}
use aether_gateway.Aether.StateMachine.{StateMachine}
use aether_gateway.Aether.Servers.{AetherServers}
use aether_gateway.Aether.BufferStream.{BufferStream}
use aether_gateway.ServerStreams.{
  Manager, RequestState, existing, request, action_stream, ServerDescriptor, on_servers,
  on_servers_error, Request,
}
use aether_gateway.GwStream.Given.{IsLive, IsGiven, update_manager-IsGiven, on_servers-IsGiven}
use aether_gateway.GwStream.Linked.{update_action_missing, update_action_found}
use aether_gateway.GwStream.Histories.{Step, Reach}
use aether_gateway.GwStream.Ownership.{
  W, A, G, IsOwned, LiveAction, grown-IsOwned, deleted-IsOwned, modified-IsOwned, kept-IsOwned,
  ended-IsOwned, made-IsOwned, made_before,
}
use aether_gateway.GwStream.{
  update_manager, write, restream, link, on_result, end_action, keep_action, after_update,
  update_action, servers_reply, servers_error,
}

module _ (aether : AetherServers) (sm : StateMachine RequestState) (bs : BufferStream) where
  abbrev Owned : W aether sm bs → Type 0
  Owned w = IsOwned aether sm bs w

  on_result-IsOwned :
      (h k : ℕ) (w : W aether sm bs)
      → IsLive aether sm w.manager k
      → Owned w
      → AtValue (λ w'. Owned w' × (w'.manager ≡ w.manager)) (on_result aether sm bs h (some k) w)
  unfolding on_result
  on_result-IsOwned h k w live i = branch (find h w.gw_streams)
    where
      branch :
          (o : Option (G aether sm bs))
          → AtValue
              (λ w'. Owned w' × (w'.manager ≡ w.manager))
              (elim o [
                | none ↦ some w
                | some s ↦
                    some (record w { gw_streams = modify h (link aether sm bs k) w.gw_streams })
              ])
      branch none = (i, refl)
      branch (some s) =
          (modified-IsOwned aether sm bs h (link aether sm bs k) w (λ _ _. live) i, refl)

  result-IsOwned :
      (h : ℕ) (stream : Option ℕ) (w : W aether sm bs)
      → AtValue (IsLive aether sm w.manager) stream
      → Owned w
      → AtValue (λ w'. Owned w' × (w'.manager ≡ w.manager)) (on_result aether sm bs h stream w)
  unfolding on_result
  result-IsOwned h (some k) w live i = on_result-IsOwned h k w live i
  result-IsOwned h none w live i = branch (find h w.gw_streams)
    where
      branch :
          (o : Option (G aether sm bs))
          → AtValue
              (λ w'. Owned w' × (w'.manager ≡ w.manager))
              (elim o [ none ↦ some w | some s ↦ none ])
      branch none = (i, refl)
      branch (some s) = tt

  after_update-IsOwned :
      (h : ℕ) (status : UpdateStatus) (action : A aether sm bs) (w : W aether sm bs)
      → LiveAction aether sm bs w.manager action
      → Owned w
      → AtValue Owned (after_update aether sm bs h status action w)
  unfolding after_update keep_action
  after_update-IsOwned h UpdateStatus.pending action w live i =
      kept-IsOwned aether sm bs h action w live i
  after_update-IsOwned h UpdateStatus.result action w live i =
      ended
        (on_result aether sm bs h (action_stream aether sm action)
          (keep_action aether sm bs h action w))
        (result-IsOwned h (action_stream aether sm action) (keep_action aether sm bs h action w)
          live (kept-IsOwned aether sm bs h action w live i))
    where
      ended :
          (o : Option (W aether sm bs))
          → AtValue (λ w'. Owned w' × (w'.manager ≡ w.manager)) o
          → AtValue Owned (Option.map (end_action aether sm bs h action) o)
      ended none all = tt
      ended (some u) (j, m) =
          ended-IsOwned aether sm bs h action u
            (subst (λ n. AtValue (λ k. k < n.next_stream) (action_stream aether sm action)) (sym m)
              (made_before aether sm bs w.manager (action_stream aether sm action) live))
            j
  after_update-IsOwned h UpdateStatus.error action w live i =
      ended-IsOwned aether sm bs h action w
        (made_before aether sm bs w.manager (action_stream aether sm action) live) i
  after_update-IsOwned h UpdateStatus.stop action w live i =
      ended-IsOwned aether sm bs h action w
        (made_before aether sm bs w.manager (action_stream aether sm action) live) i

  update_action-IsOwned :
      (h : ℕ) (w : W aether sm bs) → Owned w → AtValue Owned (update_action aether sm bs h w)
  update_action-IsOwned h w i =
      branch (find h w.actions) refl
        (AllValues-find (LiveAction aether sm bs w.manager) h w.actions i.actions)
    where
      branch :
          (o : Option (A aether sm bs))
          → find h w.actions ≡ o
          → AtValue (LiveAction aether sm bs w.manager) o
          → AtValue Owned (update_action aether sm bs h w)
      branch none e live = rw (update_action_missing aether sm bs h w e) i
      branch (some action) e live =
          let u = update_manager aether sm bs action w.manager in
          let (given, grows, b) =
            update_manager-IsGiven aether sm bs action w.manager i.bounded live in
          rw (update_action_found aether sm bs h w action e) (
            after_update-IsOwned h u.0 u.1 (record w { manager = u.2 }) given
              (grown-IsOwned aether sm bs w u.2 i grows b))

  servers_reply-IsOwned :
      (h : ℕ) (sds : List ServerDescriptor) (w : W aether sm bs)
      → Owned w
      → AtValue Owned (servers_reply aether sm bs h sds w)
  unfolding servers_reply
  servers_reply-IsOwned h sds w i = branch (find h w.actions)
    where
      replied :
          (o : Option (Request aether sm × Manager aether))
          → AtValue (λ v. IsGiven aether sm w.manager (request v.0) v.1) o
          → AtValue Owned (elim o [
            | none ↦ none
            | some (r', m') ↦
                some (keep_action aether sm bs h (request r') (record w { manager = m' }))
          ])
      replied none given = tt
      replied (some (r', m')) (live, grows, b) =
          kept-IsOwned aether sm bs h (request r') (record w { manager = m' }) live
            (grown-IsOwned aether sm bs w m' i grows b)

      branch :
          (o : Option (A aether sm bs))
          → AtValue Owned (elim o [
            | none ↦ some w
            | some action ↦ elim action [
              | existing stream ↦ some w
              | request r ↦ elim (on_servers aether sm sds r w.manager) [
                | none ↦ none
                | some (r', m') ↦
                    some (keep_action aether sm bs h (request r') (record w { manager = m' }))
              ]
            ]
          ])
      branch none = i
      branch (some (existing stream)) = i
      branch (some (request r)) =
          replied (on_servers aether sm sds r w.manager)
            (on_servers-IsGiven aether sm sds r w.manager i.bounded)

  servers_error-IsOwned :
      (h : ℕ) (w : W aether sm bs) → Owned w → Owned (servers_error aether sm bs h w)
  unfolding servers_error on_servers_error
  servers_error-IsOwned h w i =
      branch (find h w.actions)
        (AllValues-find (LiveAction aether sm bs w.manager) h w.actions i.actions)
    where
      branch :
          (o : Option (A aether sm bs))
          → AtValue (LiveAction aether sm bs w.manager) o
          → Owned (elim o [
            | none ↦ w
            | some action ↦ elim action [
              | existing stream ↦ w
              | request r ↦ keep_action aether sm bs h (request (on_servers_error aether sm r)) w
            ]
          ])
      branch none live = i
      branch (some (existing stream)) live = i
      branch (some (request r)) live =
          kept-IsOwned aether sm bs h (request (on_servers_error aether sm r)) w live i

  pub Step-IsOwned : {w u : W aether sm bs} → Step aether sm bs w u → Owned w → Owned u
  unfolding write restream
  Step-IsOwned {w} (Step.made server) i = made-IsOwned aether sm bs server w i
  Step-IsOwned {w} (Step.deleted h) i = deleted-IsOwned aether sm bs h w i
  Step-IsOwned {w} (Step.written h d) i = modified-IsOwned aether sm bs h _ w (λ s live. live) i
  Step-IsOwned {w} (Step.restreamed h) i = modified-IsOwned aether sm bs h _ w (λ s live. live) i
  Step-IsOwned {w} (Step.updated h w' e) i = subst (AtValue Owned) e (update_action-IsOwned h w i)
  Step-IsOwned {w} (Step.replied h sds w' e) i =
      subst (AtValue Owned) e (servers_reply-IsOwned h sds w i)
  Step-IsOwned {w} (Step.failed h) i = servers_error-IsOwned h w i
  Step-IsOwned {w} (Step.elsewhere servers clock) i =
      let j =
        grown-IsOwned aether sm bs w (record w.manager { servers = servers }) i (refl, omega arith)
          i.bounded in
      record { actions = j.actions; streams = j.streams; bounded = j.bounded }

  pub Reach-IsOwned : {w u : W aether sm bs} → Reach aether sm bs w u → Owned w → Owned u
  Reach-IsOwned Reach.here i = i
  Reach-IsOwned (Reach.next r s) i = Step-IsOwned s (Reach-IsOwned r i)
