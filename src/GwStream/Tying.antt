-- ===== src/GwStream/Tying.antt =====
-- The end of an action that has a stream: its GwStream is tied to the stream
-- (libs/gateway/gw_stream.cpp).
use mathlib.Core.Option
use aether_gateway.Prelude.{
  ℕ, ◌≡◌, ◌∙◌, refl, ap, ◌∷◌, Option, none, some, inl, inr, ◌||◌, Bool-cases,
}
use aether_gateway.Map.{Map, find, modify, erase, nat_order}
use aether_gateway.Map.Laws.{find-modify, find-erase, equiv_refl}
use aether_gateway.Aether.{UpdateStatus}
use aether_gateway.Aether.StateMachine.{StateMachine}
use aether_gateway.Aether.Servers.{AetherServers}
use aether_gateway.Aether.BufferStream.{BufferStream}
use aether_gateway.ServerStreams.{RequestState, action_stream, let_go}
use aether_gateway.ServerStreams.Invariant.{Serves}
use aether_gateway.GwStream.Interface.{release_keeps}
use aether_gateway.GwStream.Ownership.{W, A, G}
use aether_gateway.GwStream.{
  held_by_actions, held_by_streams, release, after_update, on_result, end_action, keep_action, link,
}

module _ (aether : AetherServers) (sm : StateMachine RequestState) (bs : BufferStream) where
  on_result_found :
      (h k : ℕ) (s : G aether sm bs) (w : W aether sm bs)
      → find h w.gw_streams ≡ some s
      → on_result aether sm bs h (some k) w
        ≡ some (record w { gw_streams = modify h (link aether sm bs k) w.gw_streams })
  unfolding on_result
  on_result_found h k s w e = rw (e, on_result)

  -- What a release leaves as it was.
  record IsReleased (w w' : W aether sm bs) : Type 0 where
    pub actions : w'.actions ≡ w.actions
    pub none_made : w'.manager.next_stream ≡ w.manager.next_stream
    pub servers : w'.manager.stream_server ≡ w.manager.stream_server

  release-IsReleased : (o : Option ℕ) (w : W aether sm bs) → IsReleased w (release aether sm bs o w)
  unfolding release let_go
  release-IsReleased none w = record { actions = refl; none_made = refl; servers = refl }
  release-IsReleased (some k) w =
      elim (Bool-cases
        (held_by_actions aether sm bs k w.actions || held_by_streams aether sm bs k w.gw_streams)) [
          | inl e ↦ rw e (record { actions = refl; none_made = refl; servers = refl })
          | inr e ↦ rw e (record { actions = refl; none_made = refl; servers = refl })
        ]

  -- GwStream h is tied to stream k, its action has ended, and no stream was made for it.
  pub record IsTied (h k : ℕ) (s : G aether sm bs) (w w' : W aether sm bs) : Type 0 where
    pub tied : find h w'.gw_streams ≡ some (link aether sm bs k s)
    pub ended : find h w'.actions ≡ none
    pub none_made : w'.manager.next_stream ≡ w.manager.next_stream
    pub servers : w'.manager.stream_server ≡ w.manager.stream_server

  pub find_made_action :
      (h : ℕ) (a : A aether sm bs) (m : Map ℕ (A aether sm bs)) → find h ((h, a) ∷ m) ≡ some a
  unfolding find
  find_made_action h a m = rw (equiv_refl h)

  find_erased : (h : ℕ) (m : Map ℕ (A aether sm bs)) → find h (erase h m) ≡ none
  find_erased h m = find-erase h h m ∙ rw (equiv_refl h)

  pub result-IsTied :
      (h k : ℕ) (action : A aether sm bs) (s : G aether sm bs) (w : W aether sm bs)
      → action_stream aether sm action ≡ some k
      → find h w.gw_streams ≡ some s
      → (w' : W aether sm bs) × (after_update aether sm bs h UpdateStatus.result action w ≡ some w')
        × IsTied h k s w w'
  unfolding after_update end_action keep_action
  result-IsTied h k action s w e f =
      let tied = modify h (link aether sm bs k) w.gw_streams in
      let kept = record (keep_action aether sm bs h action w) { gw_streams = tied } in
      let v = record kept { actions = erase h kept.actions } in
      let r = release-IsReleased (action_stream aether sm action) v in
      (
        end_action aether sm bs h action kept,
        ap (Option.map (end_action aether sm bs h action)) (
            ap (λ o. on_result aether sm bs h o (keep_action aether sm bs h action w)) e
            ∙ on_result_found h k s (keep_action aether sm bs h action w) f),
        record {
          tied =
              ap (find h) (release_keeps aether sm bs (action_stream aether sm action) v).0
              ∙ find-modify h h (link aether sm bs k) w.gw_streams
              ∙ rw (equiv_refl h, f);
          ended = ap (find h) r.actions ∙ find_erased h kept.actions;
          none_made = r.none_made;
          servers = r.servers;
        },
      )

  -- GwStream h is what s was, tied to a stream of the server.
  abbrev pub TiedTo : ℕ → ℕ → G aether sm bs → W aether sm bs → Type 0
  TiedTo h id s w =
      (k : ℕ) × (find h w.gw_streams ≡ some (link aether sm bs k s)) × Serves aether w.manager k id

  pub IsTied-TiedTo :
      (h k id : ℕ) (s : G aether sm bs) (w w' : W aether sm bs)
      → IsTied h k s w w'
      → Serves aether w.manager k id
      → TiedTo h id s w'
  IsTied-TiedTo h k id s w w' t (server, e, q) = (k, t.tied, (server, ap (find k) t.servers ∙ e, q))

  pub find_kept :
      (h : ℕ) (a b : A aether sm bs) (w : W aether sm bs)
      → find h w.actions ≡ some a
      → find h (keep_action aether sm bs h b w).actions ≡ some b
  unfolding keep_action
  find_kept h a b w e = find-modify h h (λ _. b) w.actions ∙ rw (equiv_refl h, e)
