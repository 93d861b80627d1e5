-- ===== src/GwStream/Serving.antt =====
-- Every GwStream is tied to none but a stream of the server that it was made for: what each change of
-- the streams and the actions keeps (libs/gateway/gw_stream.cpp).
pub mod Steps
use mathlib.Core.Option
use aether_gateway.Prelude.{
  ℕ, ◌≡◌, ◌≢◌, ◌∙◌, refl, sym, ap, subst, List, [], ◌∷◌, true, false, Bool, Option, none, some,
  arith, Bool-cases, Option-cases, inl, inr, if◌then◌else◌, ◌||◌,
}
use aether_gateway.Map.{Map, find, modify, erase, nat_order}
use aether_gateway.Map.Laws.{find-cons-some, find-modify-some, find-erase-some}
use aether_gateway.Map.Values.{AtValue}
use aether_gateway.Aether.StateMachine.{StateMachine}
use aether_gateway.Aether.Servers.{AetherServers}
use aether_gateway.Aether.BufferStream.{BufferStream}
use aether_gateway.LocalPort.Keys.{ServeKind}
use aether_gateway.ServerStreams.{Manager, RequestState, action_stream, let_go}
use aether_gateway.ServerStreams.Invariant.{IsValid, let_go-IsValid}
use aether_gateway.GwStream.Fitting.{
  Fits, ActionFits, Keeps, Fits-Keeps, ActionFits-Keeps, ask_manager-ActionFits,
}
use aether_gateway.GwStream.Ownership.{W, A, G}
use aether_gateway.GwStream.{
  ask_manager, new_gw_stream, delete_gw_stream, release, held_by_actions, held_by_streams,
  stream_of, link, end_action, keep_action,
}

module _ (aether : AetherServers) (sm : StateMachine RequestState) (bs : BufferStream) where
  -- The action works for this server, and so does its GwStream, if that still exists.
  pub record WorksFor (w : W aether sm bs) (h : ℕ) (action : A aether sm bs) : Type 0 where
    pub kind : ServeKind
    pub fits : ActionFits aether sm w.manager action kind
    pub same : (s : G aether sm bs) → find h w.gw_streams ≡ some s → s.server ≡ kind

  pub record IsServed (w : W aether sm bs) : Type 0 where
    pub valid : IsValid aether w.manager
    pub streams :
        (h : ℕ) (s : G aether sm bs)
        → find h w.gw_streams ≡ some s
        → AtValue (Fits aether sm w.manager s.server) s.server_stream
    pub actions : (h : ℕ) (a : A aether sm bs) → find h w.actions ≡ some a → WorksFor w h a

  pub grown-IsServed :
      (w : W aether sm bs) (n : Manager aether)
      → IsServed w
      → Keeps aether sm w.manager n
      → IsServed (record w { manager = n })
  grown-IsServed w n i g = record {
    valid = g.valid;
    streams =
        λ h s e. Fits-Keeps aether sm w.manager n s.server s.server_stream g (i.streams h s e);
    actions = λ h a e.
        let f = i.actions h a e in
        record {
          kind = f.kind;
          fits = ActionFits-Keeps aether sm w.manager n a f.kind g f.fits;
          same = f.same;
        };
  }

  pub kept-IsServed :
      (h : ℕ) (action : A aether sm bs) (w : W aether sm bs)
      → IsServed w
      → WorksFor w h action
      → IsServed (keep_action aether sm bs h action w)
  unfolding keep_action
  kept-IsServed h action w i f = record {
    valid = i.valid;
    streams = i.streams;
    actions = λ j a e.
        let (b, e', q) = find-modify-some j h (λ _. action) a w.actions e in
        let g : WorksFor w j a = elim q [
          | inl r ↦ subst (WorksFor w j) (sym r) (i.actions j b e')
          | inr (r, t) ↦ subst (WorksFor w j) (sym t) (subst (λ j. WorksFor w j action) r f)
        ] in
        record { kind = g.kind; fits = g.fits; same = g.same };
  }

  -- A change of one GwStream that keeps its server.
  pub modified-IsServed :
      (h : ℕ) (f : G aether sm bs → G aether sm bs) (w : W aether sm bs)
      → ((s : G aether sm bs) → (f s).server ≡ s.server)
      → ((s : G aether sm bs)
          → find h w.gw_streams ≡ some s
          → AtValue (Fits aether sm w.manager s.server) s.server_stream
          → AtValue (Fits aether sm w.manager s.server) (f s).server_stream)
      → IsServed w
      → IsServed (record w { gw_streams = modify h f w.gw_streams })
  modified-IsServed h f w same fits i = record {
    valid = i.valid;
    streams = λ j t e.
        let (s, e', q) = find-modify-some j h f t w.gw_streams e in
        elim q [
          | inl r ↦ rw r (i.streams j s e')
          | inr (r, u) ↦
              rw (u, same s) (fits s (ap (λ x. find x w.gw_streams) r ∙ e') (i.streams j s e'))
        ];
    actions = λ j a e.
        let g = i.actions j a e in
        record {
          kind = g.kind;
          fits = g.fits;
          same = λ t e'.
              let (s, e'', q) = find-modify-some j h f t w.gw_streams e' in
              elim q [
                | inl r ↦ ap (λ x. x.server) r ∙ g.same s e''
                | inr (_, u) ↦ ap (λ x. x.server) u ∙ same s ∙ g.same s e''
              ];
        };
  }

  release-IsServed :
      (o : Option ℕ) (w : W aether sm bs) → IsServed w → IsServed (release aether sm bs o w)
  unfolding release let_go
  release-IsServed none w i = i
  release-IsServed (some k) w i =
      elim (Bool-cases
        (held_by_actions aether sm bs k w.actions || held_by_streams aether sm bs k w.gw_streams)) [
          | inl e ↦ rw e i
          | inr e ↦ rw e (
              grown-IsServed w (let_go aether k w.manager) i
                (record { valid = let_go-IsValid aether k w.manager i.valid; kept = λ j s e. e }))
        ]

  pub deleted-IsServed :
      (h : ℕ) (w : W aether sm bs) → IsServed w → IsServed (delete_gw_stream aether sm bs h w)
  unfolding delete_gw_stream
  deleted-IsServed h w i =
      release-IsServed (stream_of aether sm bs (find h w.gw_streams))
        (record w { gw_streams = erase h w.gw_streams })
        (record {
          valid = i.valid;
          streams = λ j s e. i.streams j s (find-erase-some j h s w.gw_streams e).1;
          actions = λ j a e.
              let g = i.actions j a e in
              record {
                kind = g.kind;
                fits = g.fits;
                same = λ s e'. g.same s (find-erase-some j h s w.gw_streams e').1;
              };
        })

  pub ended-IsServed :
      (h : ℕ) (action : A aether sm bs) (w : W aether sm bs)
      → IsServed w
      → IsServed (end_action aether sm bs h action w)
  unfolding end_action
  ended-IsServed h action w i =
      release-IsServed (action_stream aether sm action) (record w { actions = erase h w.actions })
        (record {
          valid = i.valid;
          streams = i.streams;
          actions = λ j a e.
              let g = i.actions j a (find-erase-some j h a w.actions e).1 in
              record { kind = g.kind; fits = g.fits; same = g.same };
        })

  pub made-IsServed :
      (kind : ServeKind) (w : W aether sm bs)
      → IsServed w
      → IsServed (new_gw_stream aether sm bs kind w).1
  unfolding new_gw_stream
  made-IsServed kind w i =
      let (action, n) = ask_manager aether sm bs kind w.manager in
      let (fits, keeps) = ask_manager-ActionFits aether sm bs kind w.manager i.valid in
      let i' = grown-IsServed w n i keeps in
      let u = (new_gw_stream aether sm bs kind w).1 in
      let h = w.next_handle in
      let made : G aether sm bs = record {
        server = kind;
        server_stream = none;
        buffer_stream = bs.empty;
      } in
      record {
        valid = keeps.valid;
        streams = λ j s e. elim (find-cons-some j h made s w.gw_streams e) [
          | inl (q, r) ↦ rw r tt
          | inr (ne, e') ↦ i'.streams j s e'
        ];
        actions = λ j a e. elim (find-cons-some j h action a w.actions e) [
          | inl (q, r) ↦ record {
            kind = kind;
            fits = rw r fits;
            same = λ s e'. elim (find-cons-some j h made s w.gw_streams e') [
              | inl (_, r') ↦ rw r'
              | inr (ne, _) ↦ absurd (ne q)
            ];
          }
          | inr (ne, e') ↦
              let g = i'.actions j a e' in
              record {
                kind = g.kind;
                fits = g.fits;
                same = λ s e''. elim (find-cons-some j h made s w.gw_streams e'') [
                  | inl (q, _) ↦ absurd (ne q)
                  | inr (_, f) ↦ g.same s f
                ];
              }
        ];
      }
