-- ===== src/GwStream.antt =====
-- class GwStream (libs/gateway/gw_stream.h, libs/gateway/gw_stream.cpp): a buffer for the data of one
-- client, tied to the server stream that the manager finds. A GwStream is named by the number of its
-- creation; `World` holds those that exist, the actions that they asked the manager for, and the
-- manager. The library updates an action until it ends, also when its GwStream is gone by then.
pub mod Linking
pub mod Interface
pub mod Linked
pub mod Histories
pub mod Given
pub mod Ownership
pub mod Tying
pub mod Asking
pub mod Known
pub mod Answered
pub mod Sharing
pub mod Delivery
pub mod Fitting
pub mod Serving
pub mod Unseen
use mathlib.Core.Option
use aether_gateway.Prelude.{
  ℕ, ◌+◌, ◌==◌, ◌||◌, if◌then◌else◌, Bool, true, false, List, [], ◌∷◌, Option, none, some,
}
use aether_gateway.Map.{Map, find, erase, modify, nat_order}
use aether_gateway.Aether.{DataBuffer, LinkState, other_state, UpdateStatus, pending, result}
use aether_gateway.Aether.StateMachine.{StateMachine}
use aether_gateway.Aether.Servers.{AetherServers}
use aether_gateway.Aether.BufferStream.{BufferStream}
use aether_gateway.LocalPort.Keys.{ServeKind, by_id, by_endpoints}
use aether_gateway.ServerStreams.{
  Manager, RequestState, ServerDescriptor, StreamGetAction, existing, request, get_stream,
  get_stream_by_endpoints, let_go, action_stream, update, on_servers, on_servers_error,
}

module _ (aether : AetherServers) (sm : StateMachine RequestState) (bs : BufferStream) where
  pub record GwStream : Type 0 where
    -- The argument of the constructor.
    pub server : ServeKind
    pub server_stream : Option ℕ
    pub buffer_stream : bs.B

  pub record World : Type 0 where
    pub manager : Manager aether
    pub next_handle : ℕ
    pub gw_streams : Map ℕ GwStream
    -- The running actions, each under the GwStream whose constructor asked for it.
    pub actions : Map ℕ (StreamGetAction aether sm)
    pub clock : ℕ

  abbrev pub is_stream : ℕ → Option ℕ → Bool
  is_stream k none = false
  is_stream k (some h) = h == k

  -- Whether a shared_ptr to the server stream is left, in an action or in a GwStream.
  unfoldable pub held_by_actions : ℕ → Map ℕ (StreamGetAction aether sm) → Bool
  held_by_actions k [] = false
  held_by_actions k ((h, action) ∷ actions) =
      is_stream k (action_stream aether sm action) || held_by_actions k actions

  unfoldable pub held_by_streams : ℕ → Map ℕ GwStream → Bool
  held_by_streams k [] = false
  held_by_streams k ((h, s) ∷ streams) = is_stream k s.server_stream || held_by_streams k streams

  -- A shared_ptr ends: the stream goes with its last owner.
  unfoldable pub release : Option ℕ → World → World
  unfolding held_by_actions held_by_streams
  release none w = w
  release (some k) w =
      if held_by_actions k w.actions || held_by_streams k w.gw_streams
      then w
      else record w { manager = let_go aether k w.manager }

  -- The manager's answer to a constructor, for an id and for endpoints.
  unfoldable pub ask_manager :
      ServeKind → Manager aether → StreamGetAction aether sm × Manager aether
  ask_manager (by_id id) m = get_stream aether sm id true m
  ask_manager (by_endpoints es) m = get_stream_by_endpoints aether sm es m

  unfoldable pub new_gw_stream : ServeKind → World → ℕ × World
  unfolding ask_manager
  new_gw_stream server w =
      let (action, m) = ask_manager server w.manager in
      let stream : GwStream = record {
        server = server;
        server_stream = none;
        buffer_stream = bs.empty;
      } in
      (
        w.next_handle,
        record w {
          manager = m;
          next_handle = w.next_handle + 1;
          gw_streams = (w.next_handle, stream) ∷ w.gw_streams;
          actions = (w.next_handle, action) ∷ w.actions;
        },
      )

  abbrev pub stream_of : Option GwStream → Option ℕ
  stream_of none = none
  stream_of (some s) = s.server_stream

  unfoldable pub delete_gw_stream : ℕ → World → World
  unfolding release
  delete_gw_stream h w =
      release (stream_of (find h w.gw_streams)) (record w { gw_streams = erase h w.gw_streams })

  unfoldable pub write : ℕ → DataBuffer → World → World
  write h d w = record w {
    gw_streams =
        modify h (λ s. record s { buffer_stream = bs.write d s.buffer_stream }) w.gw_streams;
  }

  unfoldable pub restream : ℕ → World → World
  restream h w = record w {
    gw_streams =
        modify h (λ s. record s { buffer_stream = bs.restream s.buffer_stream }) w.gw_streams;
  }

  -- stream_info().link_state. No stream that is gone is asked.
  unfoldable pub link_state : ℕ → World → LinkState
  link_state h w = elim (find h w.gw_streams) [
    | none ↦ other_state 0
    | some s ↦ bs.link_state s.buffer_stream
  ]

  -- Tie(buffer_stream_, *server_stream_).
  abbrev pub link : ℕ → GwStream → GwStream
  link k s = record s { server_stream = some k; buffer_stream = bs.tie k s.buffer_stream }

  -- The OnResult handler of a GwStream, if it still exists: take the stream of the action and tie the
  -- buffer to it. `none` is the use of a null pointer.
  unfoldable pub on_result : ℕ → Option ℕ → World → Option World
  on_result h stream w = elim (find h w.gw_streams) [
    | none ↦ some w
    | some s ↦ elim stream [
      | none ↦ none
      | some k ↦ some (record w { gw_streams = modify h (link k) w.gw_streams })
    ]
  ]

  -- An action that has ended lets its stream go.
  unfoldable pub end_action : ℕ → StreamGetAction aether sm → World → World
  unfolding release
  end_action h action w =
      release (action_stream aether sm action) (record w { actions = erase h w.actions })

  unfoldable pub update_manager :
      StreamGetAction aether sm
      → Manager aether
      → UpdateStatus × StreamGetAction aether sm × Manager aether
  update_manager (existing stream) m = (result, existing stream, m)
  update_manager (request r) m =
      let (status, r', m') = update aether sm r m in (status, request r', m')

  unfoldable pub keep_action : ℕ → StreamGetAction aether sm → World → World
  keep_action h action w = record w { actions = modify h (λ _. action) w.actions }

  unfoldable pub after_update : ℕ → UpdateStatus → StreamGetAction aether sm → World → Option World
  unfolding on_result end_action keep_action
  after_update h UpdateStatus.pending action w = some (keep_action h action w)
  after_update h UpdateStatus.result action w =
      Option.map (end_action h action)
        (on_result h (action_stream aether sm action) (keep_action h action w))
  after_update h _ action w = some (end_action h action w)

  -- One update of the action that GwStream h asked for.
  unfoldable pub update_action : ℕ → World → Option World
  unfolding update_manager after_update
  update_action h w = elim (find h w.actions) [
    | none ↦ some w
    | some action ↦
        let (status, action', m) = update_manager action w.manager in
        after_update h status action' (record w { manager = m })
  ]

  -- The reply of GetServersAction to the request that GwStream h waits for. `none`: an empty reply.
  unfoldable pub servers_reply : ℕ → List ServerDescriptor → World → Option World
  unfolding keep_action
  servers_reply h sds w = elim (find h w.actions) [
    | none ↦ some w
    | some action ↦ elim action [
      | existing stream ↦ some w
      | request r ↦ elim (on_servers aether sm sds r w.manager) [
        | none ↦ none
        | some (r', m') ↦ some (keep_action h (request r') (record w { manager = m' }))
      ]
    ]
  ]

  unfoldable pub servers_error : ℕ → World → World
  unfolding keep_action
  servers_error h w = elim (find h w.actions) [
    | none ↦ w
    | some action ↦ elim action [
      | existing stream ↦ w
      | request r ↦ keep_action h (request (on_servers_error aether sm r)) w
    ]
  ]
