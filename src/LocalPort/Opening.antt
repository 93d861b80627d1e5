-- ===== src/LocalPort/Opening.antt =====
-- What LocalPort::OpenStream returns and leaves in the store, for a stored key and for a new one
-- (libs/gateway/local_port.cpp).
use aether_gateway.Prelude.{
  ℕ, ◌≡◌, ◌≢◌, ◌<◌, ◌∙◌, List, [], Option, none, some, arith, inl, inr, Option-cases,
}
use aether_gateway.Map.{find}
use aether_gateway.Map.Laws.{
  find-emplace, find-modify, find-emplace_other, find-modify_other, equiv_refl,
}
use aether_gateway.Aether.{DataBuffer}
use aether_gateway.LocalPort.Keys.{ServeKind, Key, key_order}
use aether_gateway.LocalPort.Interface.{GwStreams}
use aether_gateway.LocalPort.{LocalPort, StreamStore, touch, add_stream, open_stream}

module _ (g : GwStreams) where
  open g use {World, make, serves, written}

  -- The server of a stored key stays the one that its stream was made for.
  abbrev pub server_of : Option StreamStore → ServeKind → ServeKind
  server_of none server = server
  server_of (some st) server = st.server

  abbrev pub written_of : Option StreamStore → World → List DataBuffer
  written_of none w = []
  written_of (some st) w = written w st.stream

  -- The entry under the key after OpenStream: its stream is the one returned; for a stored key it is
  -- the stored one, with nothing made, and for a new key it is made for the server asked for.
  pub record Opened (key : Key) (server : ServeKind) (p : LocalPort) (w : World) (st : StreamStore)
      : Type 0 where
    pub found : find key (open_stream g key server p w).1.stream_store ≡ some st
    pub returned : (open_stream g key server p w).0 ≡ st.stream
    pub kept : st.server ≡ server_of (find key p.stream_store) server
    pub history :
        written (open_stream g key server p w).2 st.stream ≡ written_of (find key p.stream_store) w

  touch_self :
      (key : Key) (w : World) (p : LocalPort) (st : StreamStore)
      → find key p.stream_store ≡ some st
      → find key (touch g key w p).stream_store ≡ some (record st { last_used = g.now w })
  unfolding touch
  touch_self key w p st e = ground (
    arith,
    find-modify key key (λ (u : StreamStore). record u { last_used = g.now w }) p.stream_store,
    equiv_refl key,
  )

  pub open_stream_stored :
      (key : Key) (server : ServeKind) (p : LocalPort) (w : World) (st : StreamStore)
      → find key p.stream_store ≡ some st
      → open_stream g key server p w ≡ (st.stream, touch g key w p, w)
  unfolding open_stream
  open_stream_stored key server p w st e = rw (e, open_stream)

  abbrev after_add : Key → ServeKind → LocalPort → World → ℕ × LocalPort × World
  after_add key server p w =
      let (h, p', w') = add_stream g key server p w in (h, touch g key w' p', w')

  pub open_stream_new :
      (key : Key) (server : ServeKind) (p : LocalPort) (w : World)
      → find key p.stream_store ≡ none
      → open_stream g key server p w ≡ after_add key server p w
  unfolding open_stream
  open_stream_new key server p w e = rw (e, open_stream)

  Opened-stored :
      (key : Key) (server : ServeKind) (p : LocalPort) (w : World) (st : StreamStore)
      → find key p.stream_store ≡ some st
      → Opened key server p w (record st { last_used = g.now w })
  Opened-stored key server p w st e =
      let q = open_stream_stored key server p w st e in
      record {
        found = rw q (touch_self key w p st e);
        returned = rw q;
        kept = rw e;
        history = rw (q, e);
      }

  find_added :
      (key : Key) (server : ServeKind) (p : LocalPort) (w : World)
      → find key p.stream_store ≡ none
      → find key (add_stream g key server p w).1.stream_store
        ≡ some (record { last_used = 0; server = server; stream = (make server w).0 })
  unfolding add_stream
  find_added key server p w e = ground (
    arith,
    find-emplace key key (record { last_used = 0; server = server; stream = (make server w).0 })
        p.stream_store,
    equiv_refl key,
  )

  Opened-new :
      (key : Key) (server : ServeKind) (p : LocalPort) (w : World)
      → find key p.stream_store ≡ none
      → Opened key server p w (record {
        last_used = g.now (make server w).1;
        server = server;
        stream = (make server w).0;
      })
  unfolding add_stream
  Opened-new key server p w e =
      let q = open_stream_new key server p w e in
      record {
        found = rw q (touch_self key _ _ _ (find_added key server p w e));
        returned = rw q;
        kept = rw e;
        history = rw (q, e) (g.written-make_self server w);
      }

  pub open_stream-Opened :
      (key : Key) (server : ServeKind) (p : LocalPort) (w : World)
      → (st : StreamStore) × Opened key server p w st
  open_stream-Opened key server p w = elim (Option-cases (find key p.stream_store)) [
    | inr (st, e) ↦ (record st { last_used = g.now w }, Opened-stored key server p w st e)
    | inl e ↦ (
      record { last_used = g.now (make server w).1; server = server; stream = (make server w).0 },
      Opened-new key server p w e,
    )
  ]

  touch_other :
      (key k : Key) (w : World) (p : LocalPort)
      → key ≢ k
      → find k (touch g key w p).stream_store ≡ find k p.stream_store
  unfolding touch
  touch_other key k w p ne = find-modify_other k key _ p.stream_store ne

  add_stream_other :
      (key k : Key) (server : ServeKind) (p : LocalPort) (w : World)
      → key ≢ k
      → find k (add_stream g key server p w).1.stream_store ≡ find k p.stream_store
  unfolding add_stream
  add_stream_other key k server p w ne = find-emplace_other k key _ p.stream_store ne

  -- Another key keeps its entry.
  pub open_stream_other :
      (key k : Key) (server : ServeKind) (p : LocalPort) (w : World)
      → key ≢ k
      → find k (open_stream g key server p w).1.stream_store ≡ find k p.stream_store
  open_stream_other key k server p w ne = elim (Option-cases (find key p.stream_store)) [
    | inr (st, e) ↦ rw (open_stream_stored key server p w st e) (touch_other key k w p ne)
    | inl e ↦
        rw (open_stream_new key server p w e)
          (touch_other key k _ _ ne ∙ add_stream_other key k server p w ne)
  ]

  -- A stream that exists keeps what was written to it.
  pub written-open_stream :
      (key : Key) (server : ServeKind) (p : LocalPort) (w : World) (j : ℕ)
      → j < g.fresh w
      → written (open_stream g key server p w).2 j ≡ written w j
  unfolding add_stream
  written-open_stream key server p w j lt = elim (Option-cases (find key p.stream_store)) [
    | inr (st, e) ↦ rw (open_stream_stored key server p w st e)
    | inl e ↦
        let le = g.fresh-make server w in
        rw (open_stream_new key server p w e) (g.written-make_other server w j (omega arith))
  ]
