-- ===== src/GwStream/Ownership.antt =====
-- The streams that actions and GwStreams own, through each change of an owner (libs/gateway/gw_stream.cpp, libs/gateway/server_stream_manager.cpp).
pub mod Steps
use mathlib.Core.Option
use aether_gateway.Prelude.{
  ℕ, ◌+◌, ◌≡◌, ◌≢◌, ◌≤◌, ◌<◌, ◌∙◌, refl, sym, ap, subst, List, [], ◌∷◌, Bool, true, false, Option,
  none, some, All, arith, Bool-cases, Option-cases, inl, inr, ◌==◌, ◌||◌, if◌then◌else◌,
}
use aether_gateway.Map.{Map, find, modify, erase, nat_order}
use aether_gateway.Map.Values.{
  AllValues, AtValue, AllValues-find, AllValues-erase, AllValues-modify, All-map,
}
use aether_gateway.Aether.{UpdateStatus}
use aether_gateway.Aether.StateMachine.{StateMachine}
use aether_gateway.Aether.Servers.{AetherServers}
use aether_gateway.Aether.BufferStream.{BufferStream}
use aether_gateway.LocalPort.Keys.{ServeKind}
use aether_gateway.ServerStreams.{
  Manager, RequestState, StreamGetAction, existing, request, action_stream, expired, contains,
  let_go, on_servers, on_servers_error, Request,
}
use aether_gateway.GwStream.Given.{
  IsLive, IsBounded, Grows, IsLive-Grows, IsGiven, ask_manager-IsGiven, update_manager-IsGiven,
  on_servers-IsGiven,
}
use aether_gateway.GwStream.Linked.{Action}
use aether_gateway.GwStream.Histories.{
  Step, Reach, made, deleted, written, restreamed, updated, replied, failed, elsewhere, here, next,
}
use aether_gateway.GwStream.{
  GwStream, World, is_stream, ask_manager, update_manager, new_gw_stream, delete_gw_stream, write,
  restream, release, held_by_actions, held_by_streams, stream_of, link, on_result, end_action,
  keep_action, after_update, update_action, servers_reply, servers_error,
}

module _ (aether : AetherServers) (sm : StateMachine RequestState) (bs : BufferStream) where
  abbrev pub W : Type 0
  W = World aether sm bs

  abbrev pub G : Type 0
  G = GwStream aether sm bs

  abbrev pub A : Type 0
  A = Action aether sm bs

  abbrev pub LiveAction : Manager aether → A → Type 0
  LiveAction m a = AtValue (IsLive aether sm m) (action_stream aether sm a)

  abbrev pub LiveStream : Manager aether → G → Type 0
  LiveStream m s = AtValue (IsLive aether sm m) s.server_stream

  -- Every stream that is owned is live, and the manager's are made.
  pub record IsOwned (w : W) : Type 0 where
    pub actions : AllValues (LiveAction w.manager) w.actions
    pub streams : AllValues (LiveStream w.manager) w.gw_streams
    pub bounded : IsBounded aether sm w.manager

  pub AtValue-Grows :
      (m n : Manager aether) (o : Option ℕ)
      → Grows aether sm m n
      → AtValue (IsLive aether sm m) o
      → AtValue (IsLive aether sm n) o
  AtValue-Grows m n none g live = tt
  AtValue-Grows m n (some k) g live = IsLive-Grows aether sm m n k g live

  -- The manager works for a new owner.
  pub grown-IsOwned :
      (w : W) (n : Manager aether)
      → IsOwned w
      → Grows aether sm w.manager n
      → IsBounded aether sm n
      → IsOwned (record w { manager = n })
  grown-IsOwned w n o g b = record {
    actions =
        All-map (λ e live. AtValue-Grows w.manager n (action_stream aether sm e.1) g live) w.actions
          o.actions;
    streams =
        All-map (λ e live. AtValue-Grows w.manager n e.1.server_stream g live) w.gw_streams
          o.streams;
    bounded = b;
  }

  -- When a stream expires that an owner does not hold, the owner's stays.
  AtValue-let_go :
      (m : Manager aether) (k : ℕ) (o : Option ℕ)
      → is_stream aether sm bs k o ≡ false
      → AtValue (IsLive aether sm m) o
      → AtValue (IsLive aether sm (let_go aether k m)) o
  unfolding let_go expired contains
  AtValue-let_go m k none ne live = tt
  AtValue-let_go m k (some j) ne (lt, live) = (lt, ground (arith, ne, live))

  or_false : (a b : Bool) → (a || b) ≡ false → (a ≡ false) × (b ≡ false)
  or_false a b e = ground (arith, e)

  let_go-actions :
      (m : Manager aether) (k : ℕ) (actions : Map ℕ A)
      → held_by_actions aether sm bs k actions ≡ false
      → AllValues (LiveAction m) actions
      → AllValues (LiveAction (let_go aether k m)) actions
  unfolding held_by_actions
  let_go-actions m k [] e all = tt
  let_go-actions m k ((h, a) ∷ actions) e (live, all) =
      let (f, g) = or_false (is_stream aether sm bs k (action_stream aether sm a)) _ e in
      (AtValue-let_go m k (action_stream aether sm a) f live, let_go-actions m k actions g all)

  let_go-streams :
      (m : Manager aether) (k : ℕ) (streams : Map ℕ G)
      → held_by_streams aether sm bs k streams ≡ false
      → AllValues (LiveStream m) streams
      → AllValues (LiveStream (let_go aether k m)) streams
  unfolding held_by_streams
  let_go-streams m k [] e all = tt
  let_go-streams m k ((h, s) ∷ streams) e (live, all) =
      let (f, g) = or_false (is_stream aether sm bs k s.server_stream) _ e in
      (AtValue-let_go m k s.server_stream f live, let_go-streams m k streams g all)

  release-IsOwned :
      (o : Option ℕ) (w : W)
      → AtValue (λ k. k < w.manager.next_stream) o
      → IsOwned w
      → IsOwned (release aether sm bs o w)
  unfolding release let_go
  release-IsOwned none w lt i = i
  release-IsOwned (some k) w lt i =
      elim (Bool-cases
        (held_by_actions aether sm bs k w.actions || held_by_streams aether sm bs k w.gw_streams)) [
          | inl e ↦ rw e i
          | inr e ↦
              let (f, g) = or_false (held_by_actions aether sm bs k w.actions) _ e in
              rw e (record {
                actions = let_go-actions w.manager k w.actions f i.actions;
                streams = let_go-streams w.manager k w.gw_streams g i.streams;
                bounded = ((lt, i.bounded.0), i.bounded.1);
              })
        ]

  pub made_before :
      (m : Manager aether) (o : Option ℕ)
      → AtValue (IsLive aether sm m) o
      → AtValue (λ k. k < m.next_stream) o
  made_before m none live = tt
  made_before m (some k) live = live.0

  pub made-IsOwned :
      (server : ServeKind) (w : W) → IsOwned w → IsOwned (new_gw_stream aether sm bs server w).1
  unfolding new_gw_stream
  made-IsOwned server w i =
      let (live, grows, b) = ask_manager-IsGiven aether sm bs server w.manager i.bounded in
      let j = grown-IsOwned w (ask_manager aether sm bs server w.manager).1 i grows b in
      record { actions = (live, j.actions); streams = (tt, j.streams); bounded = b }

  pub deleted-IsOwned : (h : ℕ) (w : W) → IsOwned w → IsOwned (delete_gw_stream aether sm bs h w)
  unfolding delete_gw_stream
  deleted-IsOwned h w i =
      release-IsOwned (stream_of aether sm bs (find h w.gw_streams))
        (record w { gw_streams = erase h w.gw_streams })
        (held (find h w.gw_streams)
          (AllValues-find (LiveStream w.manager) h w.gw_streams i.streams))
        (record {
          actions = i.actions;
          streams = AllValues-erase (LiveStream w.manager) h w.gw_streams i.streams;
          bounded = i.bounded;
        })
    where
      held :
          (o : Option G)
          → AtValue (LiveStream w.manager) o
          → AtValue (λ k. k < w.manager.next_stream) (stream_of aether sm bs o)
      held none live = tt
      held (some s) live = made_before w.manager s.server_stream live

  -- A change of a GwStream that keeps its server stream.
  pub modified-IsOwned :
      (h : ℕ) (f : G → G) (w : W)
      → ((s : G) → LiveStream w.manager s → LiveStream w.manager (f s))
      → IsOwned w
      → IsOwned (record w { gw_streams = modify h f w.gw_streams })
  modified-IsOwned h f w keep i = record {
    actions = i.actions;
    streams = AllValues-modify (LiveStream w.manager) h f w.gw_streams keep i.streams;
    bounded = i.bounded;
  }

  pub kept-IsOwned :
      (h : ℕ) (action : A) (w : W)
      → LiveAction w.manager action
      → IsOwned w
      → IsOwned (keep_action aether sm bs h action w)
  unfolding keep_action
  kept-IsOwned h action w live i = record {
    actions =
        AllValues-modify (LiveAction w.manager) h (λ _. action) w.actions (λ _ _. live) i.actions;
    streams = i.streams;
    bounded = i.bounded;
  }

  pub ended-IsOwned :
      (h : ℕ) (action : A) (w : W)
      → AtValue (λ k. k < w.manager.next_stream) (action_stream aether sm action)
      → IsOwned w
      → IsOwned (end_action aether sm bs h action w)
  unfolding end_action
  ended-IsOwned h action w lt i =
      release-IsOwned (action_stream aether sm action) (record w { actions = erase h w.actions }) lt
        (record {
          actions = AllValues-erase (LiveAction w.manager) h w.actions i.actions;
          streams = i.streams;
          bounded = i.bounded;
        })
