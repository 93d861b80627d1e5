-- ===== src/ServerStreams/Cache.antt =====
-- The cache of streams: OpenCache, CacheStream and the cached GetStream
-- (libs/gateway/server_stream_manager.cpp).
use aether_gateway.Prelude.{
  ℕ, ◌≡◌, ◌∙◌, true, false, Option, none, some, arith, if◌then◌else◌, inl, inr, Option-cases,
  Bool-cases,
}
use aether_gateway.Map.{find, nat_order}
use aether_gateway.Map.Laws.{Distinct, erase_if_left, find-erase_if, find-emplace, emplace-Distinct}
use aether_gateway.Aether.StateMachine.{StateMachine}
use aether_gateway.Aether.Servers.{AetherServers}
use aether_gateway.ServerStreams.{
  Manager, expired, open_cache, cache_stream, RequestState, StreamGetAction, existing, request,
  new_request, get_stream,
}

module _ (aether : AetherServers) (sm : StateMachine RequestState) where
  -- The answer of the cached GetStream: a live cached stream, held from now on, or else a new request.
  abbrev pub cached_or_request : ℕ → Manager aether → Option ℕ → StreamGetAction aether sm
  cached_or_request id m none = request (new_request aether sm id)
  cached_or_request id m (some h) =
      if expired aether m h then request (new_request aether sm id) else existing (some h)

  found_after_open :
      (id : ℕ) (m : Manager aether)
      → Distinct m.stream_cache
      → find id (open_cache aether m).stream_cache ≡ elim (find id m.stream_cache) [
        | none ↦ none
        | some h ↦ if expired aether m h then none else some h
      ]
  unfolding open_cache
  found_after_open id m d = find-erase_if (expired aether m) id m.stream_cache d

  get_stream_stored :
      (id h : ℕ) (m : Manager aether)
      → find id (open_cache aether m).stream_cache ≡ some h
      → expired aether m h ≡ false
      → (get_stream aether sm id true m).0 ≡ existing (some h)
  unfolding get_stream
  get_stream_stored id h m e live = rw (e, get_stream, live)

  get_stream_missing :
      (id : ℕ) (m : Manager aether)
      → find id (open_cache aether m).stream_cache ≡ none
      → (get_stream aether sm id true m).0 ≡ request (new_request aether sm id)
  unfolding get_stream
  get_stream_missing id m e = rw (e, get_stream)

  -- With the cache, in which no id stands twice, GetStream hands out the stream that is cached for
  -- the id if it is still owned, and starts a request otherwise; it never hands out an expired
  -- stream as a null pointer.
  pub get_stream_cached :
      (id : ℕ) (m : Manager aether)
      → Distinct m.stream_cache
      → (get_stream aether sm id true m).0 ≡ cached_or_request id m (find id m.stream_cache)
  get_stream_cached id m d = elim (Option-cases (find id m.stream_cache)) [
    | inl e ↦ rw e (get_stream_missing id m (found_after_open id m d ∙ rw e))
    | inr (h, e) ↦ elim (Bool-cases (expired aether m h)) [
      | inl dead ↦ rw (e, dead) (get_stream_missing id m (found_after_open id m d ∙ rw (e, dead)))
      | inr live ↦
          rw (e, live) (get_stream_stored id h m (found_after_open id m d ∙ rw (e, live)) live)
    ]
  ]

  -- No cached stream is expired right after OpenCache.
  pub open_cache_live :
      (id h : ℕ) (m : Manager aether)
      → find id (open_cache aether m).stream_cache ≡ some h
      → expired aether (open_cache aether m) h ≡ false
  unfolding open_cache
  open_cache_live id h m e = erase_if_left (expired aether m) id h m.stream_cache e

  find-cached :
      (id h other : ℕ) (m : Manager aether)
      → find id m.stream_cache ≡ some other
      → find id (cache_stream aether id h m).stream_cache ≡ some other
  unfolding cache_stream
  find-cached id h other m e = ground (arith, find-emplace id id h m.stream_cache)

  -- CacheStream inserts and does not assign. Where the cache, in which no id stands twice, still
  -- holds an expired stream for an id, a new stream for it is not cached: the next GetStream starts
  -- a request over, however alive the new stream is.
  pub expired_entry_blocks :
      (id h other : ℕ) (m : Manager aether)
      → Distinct m.stream_cache
      → find id m.stream_cache ≡ some other
      → expired aether m other ≡ true
      → (get_stream aether sm id true (cache_stream aether id h m)).0
        ≡ request (new_request aether sm id)
  unfolding cache_stream expired new_request
  expired_entry_blocks id h other m d e dead =
      get_stream_cached id (cache_stream aether id h m) (emplace-Distinct id h m.stream_cache d)
      ∙ rw (find-cached id h other m e, dead)
