-- ===== src/LocalPort/Links.antt =====
-- A link in the error state: LocalPort::StreamState (libs/gateway/local_port.cpp).
use aether_gateway.Prelude.{ℕ, ◌≡◌, ◌≢◌, none, some, arith, true, false}
use aether_gateway.Map.{find, erase}
use aether_gateway.Map.Laws.{find-erase, find-erase_other, equiv_refl}
use aether_gateway.Aether.{ServerEndpoints}
use aether_gateway.LocalPort.Keys.{Key, key_order}
use aether_gateway.LocalPort.Interface.{GwStreams}
use aether_gateway.LocalPort.Invariant.{IsValid}
use aether_gateway.LocalPort.{LocalPort, StreamStore, is_link_error, stream_state, on_stream_update}

module _ (g : GwStreams) (hash : ServerEndpoints → ℕ) where
  open g use {World, serves, link_state}

  stream_state_broken :
      (p : LocalPort) (w : World) (k : Key) (st : StreamStore)
      → find k p.stream_store ≡ some st
      → is_link_error (link_state st.stream w) ≡ true
      → stream_state g k p w
        ≡ (record p { stream_store = erase k p.stream_store }, g.destroy st.stream w)
  unfolding stream_state
  stream_state_broken p w k st e bad = rw (e, stream_state, bad)

  stream_state_healthy :
      (p : LocalPort) (w : World) (k : Key) (st : StreamStore)
      → find k p.stream_store ≡ some st
      → is_link_error (link_state st.stream w) ≡ false
      → stream_state g k p w ≡ (p, w)
  unfolding stream_state
  stream_state_healthy p w k st e good = rw (e, stream_state, good)

  pub on_stream_update_erases :
      (p : LocalPort) (w : World) (k : Key) (st : StreamStore)
      → IsValid g hash p w
      → find k p.stream_store ≡ some st
      → is_link_error (link_state st.stream w) ≡ true
      → on_stream_update g st.stream p w
        ≡ (record p { stream_store = erase k p.stream_store }, g.destroy st.stream w)
  unfolding on_stream_update
  on_stream_update_erases p w k st v e bad =
      rw ((v.stored k st e).watched, stream_state_broken p w k st e bad)

  -- In a valid port, an update of a stored stream whose link is in error takes the entry of its key
  -- out of the store and destroys the stream; every other entry stays.
  pub on_stream_update_broken :
      (p : LocalPort) (w : World) (k : Key) (st : StreamStore)
      → IsValid g hash p w
      → find k p.stream_store ≡ some st
      → is_link_error (link_state st.stream w) ≡ true
      → let (p', w') = on_stream_update g st.stream p w in
        (find k p'.stream_store ≡ none)
        × (serves w' st.stream ≡ none)
        × ((j : Key) → k ≢ j → find j p'.stream_store ≡ find j p.stream_store)
  on_stream_update_broken p w k st v e bad =
      let r = on_stream_update_erases p w k st v e bad in
      (
        rw r (ground (arith, find-erase k k p.stream_store, equiv_refl k)),
        rw r (g.serves-destroy_self st.stream w),
        λ j ne. rw r (find-erase_other j k p.stream_store ne),
      )

  -- In a valid port, an update of a stored stream with any other link state leaves the port and the
  -- streams as they are.
  pub on_stream_update_healthy :
      (p : LocalPort) (w : World) (k : Key) (st : StreamStore)
      → IsValid g hash p w
      → find k p.stream_store ≡ some st
      → is_link_error (link_state st.stream w) ≡ false
      → on_stream_update g st.stream p w ≡ (p, w)
  unfolding on_stream_update
  on_stream_update_healthy p w k st v e good =
      rw ((v.stored k st e).watched, stream_state_healthy p w k st e good)
