-- ===== src/LocalPort/Invariant.antt =====
-- What holds of a LocalPort between two events (libs/gateway/local_port.cpp).
use aether_gateway.Prelude.{
  ℕ, ◌≡◌, ◌≤◌, ◌<◌, refl, [], ◌∷◌, some, arith, inl, inr, dec_lt, Option-cases,
}
use aether_gateway.Map.{find}
use aether_gateway.Map.Laws.{find-modify}
use aether_gateway.Aether.{ServerEndpoints}
use aether_gateway.LocalPort.Keys.{Key, server_identity, key_order}
use aether_gateway.LocalPort.Interface.{GwStreams}
use aether_gateway.LocalPort.{LocalPort, new_local_port, StreamStore, subscribers, touch}

module _ (g : GwStreams) (hash : ServerEndpoints → ℕ) where
  open g use {World, fresh, serves}

  -- One entry of the store.
  pub record IsStored (p : LocalPort) (w : World) (k : Key) (st : StreamStore) : Type 0 where
    -- The stream exists, and was made for the stored server.
    pub served : serves w st.stream ≡ some st.server
    -- The key tells the stored server as far as 32 bits can.
    pub keyed : server_identity hash st.server ≡ k.server_identity
    -- The events of the stream call back for this key alone, once.
    pub routed : subscribers st.stream p.out_data_subs ≡ k ∷ []
    pub watched : subscribers st.stream p.update_stream_subs ≡ k ∷ []

  pub record IsValid (p : LocalPort) (w : World) : Type 0 where
    pub stored : (k : Key) (st : StreamStore) → find k p.stream_store ≡ some st → IsStored p w k st
    -- Nobody listens to a stream that is still to be made.
    pub unheard : (h : ℕ) → fresh w ≤ h → subscribers h p.out_data_subs ≡ []
    pub unwatched : (h : ℕ) → fresh w ≤ h → subscribers h p.update_stream_subs ≡ []

  pub new_local_port-IsValid : (w : World) → IsValid new_local_port w
  unfolding new_local_port find subscribers
  new_local_port-IsValid w = record {
    stored = λ k st e. cc;
    unheard = λ h _. refl;
    unwatched = λ h _. refl;
  }

  -- Stored streams are older than those still to be made.
  pub stored-lt-fresh :
      (p : LocalPort) (w : World) (k : Key) (st : StreamStore)
      → IsValid p w
      → find k p.stream_store ≡ some st
      → st.stream < fresh w
  stored-lt-fresh p w k st v e = elim (dec_lt st.stream (fresh w)) [
    | yes h ↦ h
    | no h ↦ cc ((v.stored k st e).routed, v.unheard st.stream (omega arith))
  ]

  -- Two keys never share a stream.
  pub stream-injective :
      (p : LocalPort) (w : World) (k j : Key) (st su : StreamStore)
      → IsValid p w
      → find k p.stream_store ≡ some st
      → find j p.stream_store ≡ some su
      → st.stream ≡ su.stream
      → k ≡ j
  stream-injective p w k j st su v e f q = cc ((v.stored k st e).routed, (v.stored j su f).routed)

  touch_found :
      (key k : Key) (w' : World) (p : LocalPort) (st : StreamStore)
      → find k (touch g key w' p).stream_store ≡ some st
      → (su : StreamStore) × (find k p.stream_store ≡ some su)
        × (su.stream ≡ st.stream)
        × (su.server ≡ st.server)
  unfolding touch
  touch_found key k w' p st e = elim (Option-cases (find k p.stream_store)) [
    | inl f ↦ grind (arith, find-modify)
    | inr (su, f) ↦ (su, f, grind (arith, find-modify), grind (arith, find-modify))
  ]

  pub touch-IsValid :
      (key : Key) (w' : World) (p : LocalPort) (w : World)
      → IsValid p w
      → IsValid (touch g key w' p) w
  unfolding touch
  touch-IsValid key w' p w v = record {
    stored = λ k st e.
        let (su, f, q, r) = touch_found key k w' p st e in ground (arith, v.stored k su f);
    unheard = v.unheard;
    unwatched = v.unwatched;
  }
