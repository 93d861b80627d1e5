-- ===== src/GwStream/Serving/Steps.antt =====
-- Every GwStream is tied to none but a stream of the server that it was made for, whatever happens
-- (libs/gateway/gw_stream.cpp, libs/gateway/server_stream_manager.cpp).
use mathlib.Core.Option
use aether_gateway.Prelude.{ℕ, ◌≡◌, refl, subst, List, Option, none, some}
use aether_gateway.Map.{find, modify, nat_order}
use aether_gateway.Map.Values.{AtValue}
use aether_gateway.Aether.{UpdateStatus}
use aether_gateway.Aether.StateMachine.{StateMachine}
use aether_gateway.Aether.Servers.{AetherServers}
use aether_gateway.Aether.BufferStream.{BufferStream}
use aether_gateway.LocalPort.Keys.{ServeKind, by_id}
use aether_gateway.ServerStreams.{
  Manager, Request, RequestState, existing, request, action_stream, ServerDescriptor, on_servers,
  on_servers_error,
}
use aether_gateway.ServerStreams.Invariant.{servers-IsValid}
use aether_gateway.GwStream.Linked.{update_action_missing, update_action_found}
use aether_gateway.GwStream.Histories.{Step}
use aether_gateway.GwStream.Ownership.{W, A, G}
use aether_gateway.GwStream.Fitting.{
  Fits, ActionFits, Keeps, Names, update_manager-ActionFits, on_servers-RequestFits,
}
use aether_gateway.GwStream.Serving.{
  WorksFor, IsServed, grown-IsServed, kept-IsServed, modified-IsServed, deleted-IsServed,
  ended-IsServed, made-IsServed,
}
use aether_gateway.GwStream.{
  update_manager, write, restream, link, on_result, end_action, keep_action, after_update,
  update_action, servers_reply, servers_error,
}

module _ (aether : AetherServers) (sm : StateMachine RequestState) (bs : BufferStream) where
  abbrev Served : W aether sm bs → Type 0
  Served w = IsServed aether sm bs w

  stream-AtValue :
      (m : Manager aether) (a : A aether sm bs) (kind : ServeKind)
      → ActionFits aether sm m a kind
      → AtValue (Fits aether sm m kind) (action_stream aether sm a)
  stream-AtValue m (existing o) kind f = f
  stream-AtValue m (request r) kind (f, _) = f

  on_result-IsServed :
      (h : ℕ) (o : Option ℕ) (w : W aether sm bs)
      → ((s : G aether sm bs)
          → find h w.gw_streams ≡ some s
          → AtValue (Fits aether sm w.manager s.server) o)
      → Served w
      → AtValue Served (on_result aether sm bs h o w)
  unfolding on_result
  on_result-IsServed h o w fits i = branch (find h w.gw_streams) o fits
    where
      branch :
          (f : Option (G aether sm bs)) (o : Option ℕ)
          → ((s : G aether sm bs)
              → find h w.gw_streams ≡ some s
              → AtValue (Fits aether sm w.manager s.server) o)
          → AtValue Served (elim f [
            | none ↦ some w
            | some s ↦ elim o [
              | none ↦ none
              | some k ↦
                  some (record w { gw_streams = modify h (link aether sm bs k) w.gw_streams })
            ]
          ])
      branch none o fits = i
      branch (some s) none fits = tt
      branch (some s) (some k) fits =
          modified-IsServed aether sm bs h (link aether sm bs k) w (λ s. refl) (λ s e _. fits s e) i

  after_update-IsServed :
      (h : ℕ) (status : UpdateStatus) (action : A aether sm bs) (w : W aether sm bs)
      → WorksFor aether sm bs w h action
      → Served w
      → AtValue Served (after_update aether sm bs h status action w)
  unfolding after_update keep_action
  after_update-IsServed h UpdateStatus.pending action w f i =
      kept-IsServed aether sm bs h action w i f
  after_update-IsServed h UpdateStatus.result action w f i =
      ended
        (on_result aether sm bs h (action_stream aether sm action)
          (keep_action aether sm bs h action w))
        (on_result-IsServed h (action_stream aether sm action) (keep_action aether sm bs h action w)
          (λ s e. rw (f.same s e) (stream-AtValue w.manager action f.kind f.fits))
          (kept-IsServed aether sm bs h action w i f))
    where
      ended :
          (o : Option (W aether sm bs))
          → AtValue Served o
          → AtValue Served (Option.map (end_action aether sm bs h action) o)
      ended none all = tt
      ended (some u) j = ended-IsServed aether sm bs h action u j
  after_update-IsServed h UpdateStatus.error action w f i = ended-IsServed aether sm bs h action w i
  after_update-IsServed h UpdateStatus.stop action w f i = ended-IsServed aether sm bs h action w i

  pub update_action-IsServed :
      (h : ℕ) (w : W aether sm bs) → Served w → AtValue Served (update_action aether sm bs h w)
  update_action-IsServed h w i = branch (find h w.actions) refl
    where
      branch :
          (o : Option (A aether sm bs))
          → find h w.actions ≡ o
          → AtValue Served (update_action aether sm bs h w)
      branch none e = rw (update_action_missing aether sm bs h w e) i
      branch (some action) e =
          let f = i.actions h action e in
          let u = update_manager aether sm bs action w.manager in
          let (fits, keeps) =
            update_manager-ActionFits aether sm bs action w.manager f.kind i.valid f.fits in
          rw (update_action_found aether sm bs h w action e) (
            after_update-IsServed h u.0 u.1 (record w { manager = u.2 })
              (record { kind = f.kind; fits = fits; same = f.same })
              (grown-IsServed aether sm bs w u.2 i keeps))

  -- A reply of the cloud names first the server that was asked for.
  abbrev pub NamesAsked : ℕ → List ServerDescriptor → W aether sm bs → Type 0
  NamesAsked h sds w =
      (r : Request aether sm) → find h w.actions ≡ some (request r) → Names r.server_id sds

  servers_reply-IsServed :
      (h : ℕ) (sds : List ServerDescriptor) (w : W aether sm bs)
      → NamesAsked h sds w
      → Served w
      → AtValue Served (servers_reply aether sm bs h sds w)
  unfolding servers_reply
  servers_reply-IsServed h sds w named i = branch (find h w.actions) refl
    where
      replied :
          (r : Request aether sm) (o : Option (Request aether sm × Manager aether))
          → WorksFor aether sm bs w h (request r)
          → ((kind : ServeKind)
              → kind ≡ by_id r.server_id
              → AtValue
                  (λ v. ActionFits aether sm v.1 (request v.0) kind × Keeps aether sm w.manager v.1)
                  o)
          → AtValue Served (elim o [
            | none ↦ none
            | some (r', m') ↦
                some (keep_action aether sm bs h (request r') (record w { manager = m' }))
          ])
      replied r none f fits = tt
      replied r (some (r', m')) f fits =
          let (g, keeps) = fits f.kind f.fits.1 in
          kept-IsServed aether sm bs h (request r') (record w { manager = m' })
            (grown-IsServed aether sm bs w m' i keeps)
            (record { kind = f.kind; fits = g; same = f.same })

      branch :
          (o : Option (A aether sm bs))
          → find h w.actions ≡ o
          → AtValue Served (elim o [
            | none ↦ some w
            | some action ↦ elim action [
              | existing stream ↦ some w
              | request r ↦ elim (on_servers aether sm sds r w.manager) [
                | none ↦ none
                | some (r', m') ↦
                    some (keep_action aether sm bs h (request r') (record w { manager = m' }))
              ]
            ]
          ])
      branch none e = i
      branch (some (existing stream)) e = i
      branch (some (request r)) e =
          replied r (on_servers aether sm sds r w.manager) (i.actions h (request r) e)
            (λ kind q. on_servers-RequestFits aether sm sds r w.manager kind i.valid (named r e) q)

  servers_error-IsServed :
      (h : ℕ) (w : W aether sm bs) → Served w → Served (servers_error aether sm bs h w)
  unfolding servers_error on_servers_error
  servers_error-IsServed h w i = branch (find h w.actions) refl
    where
      branch :
          (o : Option (A aether sm bs))
          → find h w.actions ≡ o
          → Served (elim o [
            | none ↦ w
            | some action ↦ elim action [
              | existing stream ↦ w
              | request r ↦ keep_action aether sm bs h (request (on_servers_error aether sm r)) w
            ]
          ])
      branch none e = i
      branch (some (existing stream)) e = i
      branch (some (request r)) e =
          let f = i.actions h (request r) e in
          kept-IsServed aether sm bs h (request (on_servers_error aether sm r)) w i
            (record { kind = f.kind; fits = f.fits; same = f.same })

  -- A step in which a reply, if it is one, names the server that was asked for.
  abbrev pub Trusted : {w u : W aether sm bs} → Step aether sm bs w u → Type 0
  Trusted {w} (Step.replied h sds w' e) = NamesAsked h sds w
  Trusted _ = Unit

  pub Step-IsServed :
      {w u : W aether sm bs} (s : Step aether sm bs w u) → Trusted s → Served w → Served u
  unfolding write restream
  Step-IsServed {w} (Step.made server) t i = made-IsServed aether sm bs server w i
  Step-IsServed {w} (Step.deleted h) t i = deleted-IsServed aether sm bs h w i
  Step-IsServed {w} (Step.written h d) t i =
      modified-IsServed aether sm bs h _ w (λ s. refl) (λ s e f. f) i
  Step-IsServed {w} (Step.restreamed h) t i =
      modified-IsServed aether sm bs h _ w (λ s. refl) (λ s e f. f) i
  Step-IsServed {w} (Step.updated h w' e) t i =
      subst (AtValue Served) e (update_action-IsServed h w i)
  Step-IsServed {w} (Step.replied h sds w' e) t i =
      subst (AtValue Served) e (servers_reply-IsServed h sds w t i)
  Step-IsServed {w} (Step.failed h) t i = servers_error-IsServed h w i
  Step-IsServed {w} (Step.elsewhere servers clock) t i =
      let n : Manager aether = record w.manager { servers = servers } in
      let j =
        grown-IsServed aether sm bs w n i (record {
          valid = servers-IsValid aether servers w.manager i.valid;
          kept = λ k s e. e;
        }) in
      record {
        valid = j.valid;
        streams = j.streams;
        actions = λ h a e.
            let g = j.actions h a e in record { kind = g.kind; fits = g.fits; same = g.same };
      }
