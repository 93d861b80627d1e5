-- ===== src/GwStream/Linked.antt =====
-- A gateway whose running actions have a stream when they report a result, and one update of an action
-- (libs/gateway/gw_stream.cpp).
use mathlib.Core.Option
use aether_gateway.Prelude.{
  ℕ, ◌≡◌, ◌≢◌, ◌∙◌, refl, sym, ap, subst, Bool, true, false, Option, none, some, inl, inr,
  Option-cases, if◌then◌else◌, ◌||◌,
}
use aether_gateway.Map.{Map, find, erase, modify, nat_order, equiv}
use aether_gateway.Map.Laws.{Distinct, find-erase-some, find-modify}
use aether_gateway.Aether.{UpdateStatus}
use aether_gateway.Aether.StateMachine.{StateMachine}
use aether_gateway.Aether.Servers.{AetherServers}
use aether_gateway.Aether.BufferStream.{BufferStream}
use aether_gateway.ServerStreams.{action_stream, RequestState, StreamGetAction, let_go}
use aether_gateway.GwStream.{
  GwStream, World, release, held_by_actions, held_by_streams, link, on_result, end_action,
  keep_action, update_manager, after_update, update_action,
}
use aether_gateway.GwStream.Linking.{IsReady, IsUpdated, update_manager-IsUpdated}

module _ (aether : AetherServers) (sm : StateMachine RequestState) (bs : BufferStream) where
  abbrev pub W : Type 0
  W = World aether sm bs

  abbrev pub Action : Type 0
  Action = StreamGetAction aether sm

  abbrev pub OneReady : Option Action → Type 0
  OneReady none = ⊥
  OneReady (some a) = IsReady aether sm a

  abbrev pub AllReady : Map ℕ Action → Type 0
  AllReady actions = (h : ℕ) (a : Action) → find h actions ≡ some a → IsReady aether sm a

  -- In the cache no id stands twice, and every running action is ready.
  abbrev pub IsLinked : W → Type 0
  IsLinked w = Distinct w.manager.stream_cache × AllReady w.actions

  pub release-IsLinked : (k : Option ℕ) (w : W) → IsLinked w → IsLinked (release aether sm bs k w)
  unfolding release let_go
  release-IsLinked none w l = l
  release-IsLinked (some k) w l =
      branch
        (held_by_actions aether sm bs k w.actions || held_by_streams aether sm bs k w.gw_streams)
    where
      branch :
          (held : Bool)
          → IsLinked (if held then w else record w { manager = let_go aether k w.manager })
      branch true = l
      branch false = l

  modified :
      (h j : ℕ) (action b : Action) (o : Option Action)
      → (if equiv h j then Option.map (λ _. action) o else o) ≡ some b
      → IsReady aether sm action
      → ((a : Action) → o ≡ some a → IsReady aether sm a)
      → IsReady aether sm b
  modified h j action b o e ready all = branch (equiv h j) o e all
    where
      branch :
          (same : Bool) (o : Option Action)
          → (if same then Option.map (λ _. action) o else o) ≡ some b
          → ((a : Action) → o ≡ some a → IsReady aether sm a)
          → IsReady aether sm b
      branch true none e all = cc
      branch true (some a) e all = subst OneReady e ready
      branch false o e all = all b e

  keep_action-AllReady :
      (h : ℕ) (action : Action) (w : W)
      → IsReady aether sm action
      → AllReady w.actions
      → AllReady (keep_action aether sm bs h action w).actions
  unfolding keep_action
  keep_action-AllReady h action w ready all j b e =
      modified h j action b (find j w.actions) (sym (find-modify j h (λ _. action) w.actions) ∙ e)
        ready (all j)

  end_action-IsLinked :
      (h : ℕ) (action : Action) (w : W) → IsLinked w → IsLinked (end_action aether sm bs h action w)
  unfolding end_action
  end_action-IsLinked h action w (d, all) =
      release-IsLinked (action_stream aether sm action) (record w { actions = erase h w.actions })
        (d, λ j a e. all j a (find-erase-some j h a w.actions e).1)

  -- A handler that is given a stream does its work, and leaves the actions and the manager.
  on_result-some :
      (h k : ℕ) (w : W)
      → (w' : W) × (on_result aether sm bs h (some k) w ≡ some w')
        × (w'.manager ≡ w.manager)
        × (w'.actions ≡ w.actions)
  unfolding on_result
  on_result-some h k w = branch (find h w.gw_streams)
    where
      branch :
          (o : Option (GwStream aether sm bs))
          → (w' : W) × (elim o [
            | none ↦ some w
            | some s ↦ some (record w { gw_streams = modify h (link aether sm bs k) w.gw_streams })
          ]
              ≡ some w')
            × (w'.manager ≡ w.manager)
            × (w'.actions ≡ w.actions)
      branch none = (w, refl, refl, refl)
      branch (some s) =
          (record w { gw_streams = modify h (link aether sm bs k) w.gw_streams }, refl, refl, refl)

  -- The handler of a result, for an action that has a stream.
  on_result-IsLinked :
      (h : ℕ) (stream : Option ℕ) (w : W)
      → stream ≢ none
      → IsLinked w
      → (w' : W) × (on_result aether sm bs h stream w ≡ some w') × IsLinked w'
  on_result-IsLinked h none w ne l = absurd (ne refl)
  on_result-IsLinked h (some k) w ne (d, all) =
      let (w', e, m, a) = on_result-some h k w in (w', e, (rw m d, rw a all))

  pub kept-IsLinked :
      (h : ℕ) (action : Action) (w : W)
      → IsReady aether sm action
      → IsLinked w
      → IsLinked (keep_action aether sm bs h action w)
  unfolding keep_action
  kept-IsLinked h action w ready (d, all) = (d, keep_action-AllReady h action w ready all)

  after_update-IsLinked :
      (h : ℕ) (status : UpdateStatus) (action : Action) (w : W)
      → IsUpdated aether sm (status, action, w.manager)
      → AllReady w.actions
      → (w' : W) × (after_update aether sm bs h status action w ≡ some w') × IsLinked w'
  unfolding after_update
  after_update-IsLinked h UpdateStatus.pending action w (ready, d, has) all =
      (keep_action aether sm bs h action w, refl, kept-IsLinked h action w ready (d, all))
  after_update-IsLinked h UpdateStatus.result action w (ready, d, has) all =
      let (u, e, l) =
        on_result-IsLinked h (action_stream aether sm action) (keep_action aether sm bs h action w)
          (has refl) (kept-IsLinked h action w ready (d, all)) in
      (
        end_action aether sm bs h action u,
        ap (Option.map (end_action aether sm bs h action)) e,
        end_action-IsLinked h action u l,
      )
  after_update-IsLinked h UpdateStatus.error action w (ready, d, has) all =
      (end_action aether sm bs h action w, refl, end_action-IsLinked h action w (d, all))
  after_update-IsLinked h UpdateStatus.stop action w (ready, d, has) all =
      (end_action aether sm bs h action w, refl, end_action-IsLinked h action w (d, all))

  pub update_action_missing :
      (h : ℕ) (w : W) → find h w.actions ≡ none → update_action aether sm bs h w ≡ some w
  unfolding update_action
  update_action_missing h w e = rw (e, update_action)

  pub update_action_found :
      (h : ℕ) (w : W) (action : Action)
      → find h w.actions ≡ some action
      → update_action aether sm bs h w ≡ (
          let (status, action', m) = update_manager aether sm bs action w.manager in
          after_update aether sm bs h status action' (record w { manager = m }))
  unfolding update_action
  update_action_found h w action e = rw (e, update_action)

  pub update_action-IsLinked :
      (h : ℕ) (w : W)
      → IsLinked w
      → (w' : W) × (update_action aether sm bs h w ≡ some w') × IsLinked w'
  update_action-IsLinked h w (d, all) = elim (Option-cases (find h w.actions)) [
    | inl e ↦ (w, update_action_missing h w e, (d, all))
    | inr (action, e) ↦
        let u = update_manager aether sm bs action w.manager in
        let (w', f, l) =
          after_update-IsLinked h u.0 u.1 (record w { manager = u.2 })
            (update_manager-IsUpdated aether sm bs action w.manager (all h action e) d) all in
        (w', update_action_found h w action e ∙ f, l)
  ]
