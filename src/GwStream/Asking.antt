-- ===== src/GwStream/Asking.antt =====
-- What a new GwStream asks the manager for, and what it is once it has been written to
-- (libs/gateway/gw_stream.cpp, libs/gateway/server_stream_manager.cpp).
use aether_gateway.Prelude.{ℕ, ◌≡◌, ◌∙◌, refl, true, Option, none, some, inl, inr, Bool-cases}
use aether_gateway.Map.{find, nat_order}
use aether_gateway.Map.Laws.{find-modify, equiv_refl}
use aether_gateway.Aether.{DataBuffer}
use aether_gateway.Aether.StateMachine.{StateMachine}
use aether_gateway.Aether.Servers.{AetherServers}
use aether_gateway.Aether.BufferStream.{BufferStream}
use aether_gateway.LocalPort.Keys.{ServeKind, by_id}
use aether_gateway.ServerStreams.{
  Manager, RequestState, existing, request, new_request, get_stream, open_cache, expired,
}
use aether_gateway.ServerStreams.Invariant.{IsValid, Serves, open_cache-IsValid}
use aether_gateway.ServerStreams.Cache.{get_stream_cached, cached_or_request}
use aether_gateway.GwStream.Interface.{find_made_self}
use aether_gateway.GwStream.Tying.{find_made_action}
use aether_gateway.GwStream.Ownership.{W, A, G}
use aether_gateway.GwStream.{new_gw_stream, write, ask_manager}

module _ (aether : AetherServers) (sm : StateMachine RequestState) (bs : BufferStream) where
  -- What GwStream h waits for: a stream of the server, or a new request for it.
  pub data IsAsked (id : ℕ) (m : Manager aether) : A aether sm bs → Type 0 where
    cached : (k : ℕ) → Serves aether m k id → IsAsked id m (existing (some k))
    requested : IsAsked id m (request (new_request aether sm id))

  -- The manager's answer to a new GwStream.
  pub answer-IsAsked :
      (id : ℕ) (w : W aether sm bs)
      → IsValid aether w.manager
      → let (action, m) = ask_manager aether sm bs (by_id id) w.manager in IsAsked id m action
  unfolding ask_manager get_stream open_cache
  answer-IsAsked id w v =
      rw (get_stream_cached aether sm id w.manager v.distinct)
        (answered (find id w.manager.stream_cache) refl)
    where
      answered :
          (o : Option ℕ)
          → find id w.manager.stream_cache ≡ o
          → IsAsked id
              (get_stream aether sm id true w.manager).1
              (cached_or_request aether sm id w.manager o)
      answered none e = requested
      answered (some k) e = elim (Bool-cases (expired aether w.manager k)) [
        | inl dead ↦ rw dead requested
        | inr live ↦ rw live (cached k (v.cached id k e))
      ]

  pub asked-IsValid :
      (id : ℕ) (w : W aether sm bs)
      → IsValid aether w.manager
      → IsValid aether (ask_manager aether sm bs (by_id id) w.manager).1
  unfolding ask_manager get_stream
  asked-IsValid id w v = open_cache-IsValid aether w.manager v

  pub asked_servers :
      (id : ℕ) (w : W aether sm bs)
      → (ask_manager aether sm bs (by_id id) w.manager).1.servers ≡ w.manager.servers
  unfolding ask_manager get_stream open_cache
  asked_servers id w = refl

  -- A GwStream that has been made and written to.
  abbrev pub buffered : ServeKind → DataBuffer → G aether sm bs
  buffered kind d = record {
    server = kind;
    server_stream = none;
    buffer_stream = bs.write d bs.empty;
  }

  pub record IsWritten (kind : ServeKind) (d : DataBuffer) (w : W aether sm bs) : Type 0 where
    pub stream :
        let (h, v) = new_gw_stream aether sm bs kind w in
        find h (write aether sm bs h d v).gw_streams ≡ some (buffered kind d)
    pub action :
        let (h, v) = new_gw_stream aether sm bs kind w in
        find h (write aether sm bs h d v).actions ≡ some (ask_manager aether sm bs kind w.manager).0

  pub new-IsWritten : (kind : ServeKind) (d : DataBuffer) (w : W aether sm bs) → IsWritten kind d w
  unfolding new_gw_stream write
  new-IsWritten kind d w =
      let (action, m) = ask_manager aether sm bs kind w.manager in
      let (h, u) = new_gw_stream aether sm bs kind w in
      let s : G aether sm bs = record {
        server = kind;
        server_stream = none;
        buffer_stream = bs.empty;
      } in
      let f : G aether sm bs → G aether sm bs =
        λ s. record s { buffer_stream = bs.write d s.buffer_stream } in
      record {
        stream =
            find-modify h h f u.gw_streams
            ∙ rw (equiv_refl h, find_made_self aether sm bs h s w.gw_streams);
        action = find_made_action aether sm bs h action w.actions;
      }
