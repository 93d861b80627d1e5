-- ===== src/GwStream/Histories.antt =====
-- The streams of a gateway over time: constructors, destructors, writes, updates of actions and replies
-- of the cloud, in any order (libs/gateway/gw_stream.cpp, libs/gateway/server_stream_manager.cpp).
use aether_gateway.Prelude.{
  ℕ, ◌≡◌, ◌∙◌, refl, sym, subst, Bool, true, false, List, Option, none, some, if◌then◌else◌,
}
use aether_gateway.Map.{find, erase, nat_order, equiv}
use aether_gateway.Aether.{DataBuffer}
use aether_gateway.Aether.StateMachine.{StateMachine}
use aether_gateway.Aether.Servers.{AetherServers}
use aether_gateway.Aether.BufferStream.{BufferStream}
use aether_gateway.LocalPort.Keys.{ServeKind}
use aether_gateway.ServerStreams.{
  Manager, Request, RequestState, existing, request, ServerDescriptor, on_servers, on_servers_error,
}
use aether_gateway.GwStream.{
  ask_manager, new_gw_stream, delete_gw_stream, write, restream, stream_of, keep_action,
  update_action, servers_reply, servers_error,
}
use aether_gateway.GwStream.Linking.{
  IsReady, ask_manager-IsReady, ask_manager-Distinct, on_servers-IsUpdated,
  on_servers_error-IsReady,
}
use aether_gateway.GwStream.Linked.{
  W, Action, OneReady, IsLinked, release-IsLinked, kept-IsLinked, update_action-IsLinked,
}

module _ (aether : AetherServers) (sm : StateMachine RequestState) (bs : BufferStream) where
  -- Everything that happens to the streams of a gateway. An update or a reply that meets a null
  -- pointer or an empty reply has no step.
  pub data Step (w : W aether sm bs) : W aether sm bs → Type 0 where
    made : (server : ServeKind) → Step w (new_gw_stream aether sm bs server w).1
    deleted : (h : ℕ) → Step w (delete_gw_stream aether sm bs h w)
    written : (h : ℕ) (d : DataBuffer) → Step w (write aether sm bs h d w)
    restreamed : (h : ℕ) → Step w (restream aether sm bs h w)
    updated : (h : ℕ) (w' : W aether sm bs) → update_action aether sm bs h w ≡ some w' → Step w w'
    replied :
        (h : ℕ) (sds : List ServerDescriptor) (w' : W aether sm bs)
        → servers_reply aether sm bs h sds w ≡ some w'
        → Step w w'
    failed : (h : ℕ) → Step w (servers_error aether sm bs h w)
    -- The application changes its servers, and time passes.
    elsewhere :
        (servers : aether.A) (clock : ℕ)
        → Step w (record w { manager = record w.manager { servers = servers }; clock = clock })

  pub data Reach (w : W aether sm bs) : W aether sm bs → Type 0 where
    here : Reach w w
    next : {u x : W aether sm bs} → Reach w u → Step u x → Reach w x

  made-IsLinked :
      (server : ServeKind) (w : W aether sm bs)
      → IsLinked aether sm bs w
      → IsLinked aether sm bs (new_gw_stream aether sm bs server w).1
  unfolding new_gw_stream find
  made-IsLinked server w (d, all) = (
    ask_manager-Distinct aether sm bs server w.manager d,
    λ j a e. branch j a (equiv w.next_handle j) e,
  )
    where
      branch :
          (j : ℕ) (a : Action aether sm bs) (same : Bool)
          → (if same then some (ask_manager aether sm bs server w.manager).0 else find j w.actions)
            ≡ some a
          → IsReady aether sm a
      branch j a true e =
          subst (OneReady aether sm bs) e (ask_manager-IsReady aether sm bs server w.manager d)
      branch j a false e = all j a e

  replied-IsLinked :
      (h : ℕ) (sds : List ServerDescriptor) (w w' : W aether sm bs)
      → servers_reply aether sm bs h sds w ≡ some w'
      → IsLinked aether sm bs w
      → IsLinked aether sm bs w'
  unfolding servers_reply
  replied-IsLinked h sds w w' e (d, all) = branch (find h w.actions) e
    where
      Holds : Option (W aether sm bs) → Type 0
      Holds none = ⊥
      Holds (some u) = IsLinked aether sm bs u

      answered :
          (o : Option (Request aether sm × Manager aether)) (r : Request aether sm)
          → on_servers aether sm sds r w.manager ≡ o
          → (elim o [
            | none ↦ none
            | some (r', m') ↦
                some (keep_action aether sm bs h (request r') (record w { manager = m' }))
          ])
            ≡ some w'
          → IsLinked aether sm bs w'
      answered none r q e = cc
      answered (some (r', m')) r q e =
          let (ready, d') = on_servers-IsUpdated aether sm sds r r' w.manager m' d q in
          subst Holds e
            (kept-IsLinked aether sm bs h (request r') (record w { manager = m' }) ready (d', all))

      branch :
          (o : Option (Action aether sm bs))
          → (elim o [
            | none ↦ some w
            | some action ↦ elim action [
              | existing stream ↦ some w
              | request r ↦ elim (on_servers aether sm sds r w.manager) [
                | none ↦ none
                | some (r', m') ↦
                    some (keep_action aether sm bs h (request r') (record w { manager = m' }))
              ]
            ]
          ])
            ≡ some w'
          → IsLinked aether sm bs w'
      branch none e = subst Holds e (d, all)
      branch (some (existing stream)) e = subst Holds e (d, all)
      branch (some (request r)) e = answered (on_servers aether sm sds r w.manager) r refl e

  failed-IsLinked :
      (h : ℕ) (w : W aether sm bs)
      → IsLinked aether sm bs w
      → IsLinked aether sm bs (servers_error aether sm bs h w)
  unfolding servers_error
  failed-IsLinked h w l = branch (find h w.actions)
    where
      branch :
          (o : Option (Action aether sm bs))
          → IsLinked aether sm bs (elim o [
            | none ↦ w
            | some action ↦ elim action [
              | existing stream ↦ w
              | request r ↦ keep_action aether sm bs h (request (on_servers_error aether sm r)) w
            ]
          ])
      branch none = l
      branch (some (existing stream)) = l
      branch (some (request r)) =
          kept-IsLinked aether sm bs h (request (on_servers_error aether sm r)) w
            (on_servers_error-IsReady aether sm r) l

  Step-IsLinked :
      {w u : W aether sm bs} → Step w u → IsLinked aether sm bs w → IsLinked aether sm bs u
  unfolding delete_gw_stream write restream
  Step-IsLinked {w} (made server) l = made-IsLinked server w l
  Step-IsLinked {w} (deleted h) l =
      release-IsLinked aether sm bs (stream_of aether sm bs (find h w.gw_streams))
        (record w { gw_streams = erase h w.gw_streams }) l
  Step-IsLinked (written h d) l = l
  Step-IsLinked (restreamed h) l = l
  Step-IsLinked {w} (updated h w' e) l =
      let (v, f, k) = update_action-IsLinked aether sm bs h w l in subst Linked (sym f ∙ e) k
    where
      Linked : Option (W aether sm bs) → Type 0
      Linked none = ⊥
      Linked (some u) = IsLinked aether sm bs u
  Step-IsLinked {w} (replied h sds w' e) l = replied-IsLinked h sds w w' e l
  Step-IsLinked {w} (failed h) l = failed-IsLinked h w l
  Step-IsLinked (elsewhere servers clock) l = l

  pub Reach-IsLinked :
      {w u : W aether sm bs} → Reach w u → IsLinked aether sm bs w → IsLinked aether sm bs u
  Reach-IsLinked here l = l
  Reach-IsLinked (next r s) l = Step-IsLinked s (Reach-IsLinked r l)

  -- From a gateway whose cache has no id twice and whose running actions are ready, as a new one's
  -- are, whatever streams are made, written and destroyed, and whatever the cloud answers, the next
  -- update of a stream's action is done: no OnResult handler of GwStream ever meets a null stream,
  -- whether the stream was cached, made for a known server, or requested.
  pub Reach-update_action :
      {w u : W aether sm bs}
      → IsLinked aether sm bs w
      → Reach w u
      → (h : ℕ) → (u' : W aether sm bs) × (update_action aether sm bs h u ≡ some u')
  Reach-update_action {u = u} l r h =
      let (u', e, _) = update_action-IsLinked aether sm bs h u (Reach-IsLinked r l) in (u', e)
