-- ===== src/ServerStreams/Invariant.antt =====
-- What holds of the manager between two events (libs/gateway/server_stream_manager.cpp).
use aether_gateway.Prelude.{ℕ, ◌≡◌, ◌<◌, none, some, arith, inl, inr, Option-cases}
use aether_gateway.Map.{find, nat_order}
use aether_gateway.Map.Laws.{
  Distinct, emplace-Distinct, erase_if-Distinct, find-emplace, find-emplace-some, find-erase_if,
  equiv_refl,
}
use aether_gateway.Aether.Servers.{Server, AetherServers}
use aether_gateway.ServerStreams.{Manager, expired, let_go, make_stream, cache_stream, open_cache}

module _ (aether : AetherServers) where
  -- The stream has been made, and its server has this id.
  abbrev pub Serves : Manager aether → ℕ → ℕ → Type 0
  Serves m h id = (s : Server) × (find h m.stream_server ≡ some s) × (s.server_id ≡ id)

  pub record IsValid (m : Manager aether) : Type 0 where
    pub distinct : Distinct m.stream_cache
    -- A cached stream is one of the server that it is cached for.
    pub cached : (id h : ℕ) → find id m.stream_cache ≡ some h → Serves m h id
    pub made : (h : ℕ) (s : Server) → find h m.stream_server ≡ some s → h < m.next_stream

  unmade : (m : Manager aether) → IsValid m → find m.next_stream m.stream_server ≡ none
  unmade m v = elim (Option-cases (find m.next_stream m.stream_server)) [
    | inl e ↦ e
    | inr (s, e) ↦ absurd (omega (arith, v.made m.next_stream s e))
  ]

  pub make_stream-Serves :
      (server : Server) (m : Manager aether)
      → IsValid m
      → find (make_stream aether server m).0 (make_stream aether server m).1.stream_server
        ≡ some server
  unfolding make_stream
  make_stream-Serves server m v = ground (
    arith,
    find-emplace m.next_stream m.next_stream server m.stream_server,
    unmade m v,
    equiv_refl m.next_stream,
  )

  -- A stream keeps its server when another one is made.
  pub make_stream_keeps :
      (server : Server) (m : Manager aether) (h id : ℕ)
      → Serves m h id
      → Serves (make_stream aether server m).1 h id
  unfolding make_stream
  make_stream_keeps server m h id (s, e, q) =
      (s, ground (arith, find-emplace h m.next_stream server m.stream_server), q)

  pub make_stream-IsValid :
      (server : Server) (m : Manager aether) → IsValid m → IsValid (make_stream aether server m).1
  unfolding make_stream
  make_stream-IsValid server m v = record {
    distinct = v.distinct;
    cached = λ id h e. make_stream_keeps server m h id (v.cached id h e);
    made = λ h s e. elim (find-emplace-some h m.next_stream server s m.stream_server e) [
      | inl old ↦ omega (arith, v.made h s old)
      | inr (q, _) ↦ omega arith
    ];
  }

  pub cache_stream-IsValid :
      (id h : ℕ) (m : Manager aether)
      → IsValid m
      → Serves m h id
      → IsValid (cache_stream aether id h m)
  unfolding cache_stream
  cache_stream-IsValid id h m v s = record {
    distinct = emplace-Distinct id h m.stream_cache v.distinct;
    cached = λ j k e. elim (find-emplace-some j id h k m.stream_cache e) [
      | inl old ↦ v.cached j k old
      | inr (q, r) ↦ rw (← q, r) s
    ];
    made = v.made;
  }

  pub open_cache-IsValid : (m : Manager aether) → IsValid m → IsValid (open_cache aether m)
  unfolding open_cache
  open_cache-IsValid m v = record {
    distinct = erase_if-Distinct (expired aether m) m.stream_cache v.distinct;
    cached = λ id h e.
        v.cached id h
          (ground (arith, find-erase_if (expired aether m) id m.stream_cache v.distinct));
    made = v.made;
  }

  pub let_go-IsValid : (h : ℕ) (m : Manager aether) → IsValid m → IsValid (let_go aether h m)
  unfolding let_go
  let_go-IsValid h m v = record { distinct = v.distinct; cached = v.cached; made = v.made }

  -- What the manager's streams and cache do not depend on.
  pub servers-IsValid :
      (a : aether.A) (m : Manager aether) → IsValid m → IsValid (record m { servers = a })
  servers-IsValid a m v = record { distinct = v.distinct; cached = v.cached; made = v.made }
