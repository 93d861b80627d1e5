-- ===== src/ServerStreams/Purge.antt =====
-- The iterator loop of ServerStreamManager::OpenCache (libs/gateway/server_stream_manager.cpp), on
-- fuel: entries before the iterator, entries from it on, and an erase that moves the iterator on.
use mathlib.Core.Option
use mathlib.Core.List.{append-nil, append_assoc}
use aether_gateway.Prelude.{
  ℕ, zero, suc, ◌<◌, ◌≡◌, ◌∙◌, sym, ap, Bool, [], ◌∷◌, ◌++◌, Option, none, some, if◌then◌else◌, inl,
  inr, Bool-cases, arith, length,
}
use aether_gateway.Map.{Map, erase_if, nat_order}
use aether_gateway.Aether.Servers.{AetherServers}
use aether_gateway.ServerStreams.{Manager, expired, open_cache}

-- `it = stream_cache_.erase(it)` or `++it`: the entries before and from `it`.
unfoldable pub purge_step : (ℕ → Bool) → ℕ × ℕ → Map ℕ ℕ → Map ℕ ℕ → Map ℕ ℕ × Map ℕ ℕ
purge_step is_expired entry before rest =
    if is_expired entry.1 then (before, rest) else (before ++ entry ∷ [], rest)

-- `none` has run out of fuel.
unfoldable pub purge_loop : ℕ → (ℕ → Bool) → Map ℕ ℕ → Map ℕ ℕ → Option (Map ℕ ℕ)
unfolding purge_step
purge_loop zero is_expired before rest = none
purge_loop (suc fuel) is_expired before [] = some before
purge_loop (suc fuel) is_expired before (entry ∷ rest) =
    let (before', rest') = purge_step is_expired entry before rest in
    purge_loop fuel is_expired before' rest'

purge_loop-erase_if :
    (fuel : ℕ) (is_expired : ℕ → Bool) (before rest : Map ℕ ℕ)
    → length rest < fuel
    → purge_loop fuel is_expired before rest ≡ some (before ++ erase_if is_expired rest)
unfolding purge_loop erase_if
purge_loop-erase_if zero is_expired before rest lt = absurd (omega arith)
purge_loop-erase_if (suc fuel) is_expired before [] lt = ap some (sym (append-nil before))
purge_loop-erase_if (suc fuel) is_expired before ((i, v) ∷ rest) lt =
    elim (Bool-cases (is_expired v)) [
      | inl e ↦ rw e (purge_loop-erase_if fuel is_expired before rest (omega arith))
      | inr e ↦ rw e (
          purge_loop-erase_if fuel is_expired (before ++ (i, v) ∷ []) rest (omega arith)
          ∙ ap some (append_assoc before ((i, v) ∷ []) (erase_if is_expired rest)))
    ]

module _ (aether : AetherServers) where
  -- The loop of OpenCache, from begin().
  unfoldable pub open_cache_loop : ℕ → Manager aether → Option (Manager aether)
  unfolding purge_loop expired
  open_cache_loop fuel m =
      Option.map (λ cache. record m { stream_cache = cache })
        (purge_loop fuel (expired aether m) [] m.stream_cache)

  -- The iterator loop of OpenCache ends: on fuel above the number of cached entries it reaches the
  -- end of the map, and what it leaves is the cache without its expired entries, in the order they
  -- had.
  pub open_cache_loop_ends :
      (fuel : ℕ) (m : Manager aether)
      → length m.stream_cache < fuel
      → open_cache_loop fuel m ≡ some (open_cache aether m)
  unfolding open_cache_loop open_cache
  open_cache_loop_ends fuel m lt =
      ap (Option.map (λ cache. record m { stream_cache = cache }))
        (purge_loop-erase_if fuel (expired aether m) [] m.stream_cache lt)
