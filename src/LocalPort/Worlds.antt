-- ===== src/LocalPort/Worlds.antt =====
-- What the streams keep through a LocalPort's work, which makes, writes to and destroys streams and does
-- nothing else to them (libs/gateway/local_port.cpp).
use aether_gateway.Prelude.{ℕ, List, [], ◌∷◌, inl, inr, Option-cases, Bool-cases}
use aether_gateway.Map.{find}
use aether_gateway.Aether.{DataBuffer}
use aether_gateway.Aether.Api.{Codec, GatewayCall}
use aether_gateway.LocalPort.Keys.{ServeKind, Key, key_order}
use aether_gateway.LocalPort.Interface.{GwStreams}
use aether_gateway.LocalPort.Opening.{open_stream_stored, open_stream_new}
use aether_gateway.LocalPort.Routing.{call_key, call_server, call_payload, gateway_call_lem}
use aether_gateway.LocalPort.{
  LocalPort, add_stream, open_stream, gateway_calls, input, stream_state, stream_state_all,
  on_stream_update, subscribers, is_link_error,
}

module _ (g : GwStreams) (P : g.World → Type 0) where
  open g use {World, make, destroy, write, link_state}

  -- The property outlives each operation on streams.
  pub record IsKept : Type 0 where
    pub made : (s : ServeKind) (w : World) → P w → P (make s w).1
    pub destroyed : (h : ℕ) (w : World) → P w → P (destroy h w)
    pub written : (h : ℕ) (d : DataBuffer) (w : World) → P w → P (write h d w)

  module _ (kept : IsKept) where
    open_stream-kept :
        (key : Key) (server : ServeKind) (p : LocalPort) (w : World)
        → P w
        → P (open_stream g key server p w).2
    unfolding add_stream
    open_stream-kept key server p w i = elim (Option-cases (find key p.stream_store)) [
      | inr (st, e) ↦ rw (open_stream_stored g key server p w st e) i
      | inl e ↦ rw (open_stream_new g key server p w e) (kept.made server w i)
    ]

    gateway_calls-kept :
        (api : Codec) (device_id : ℕ) (calls : List GatewayCall) (p : LocalPort) (w : World)
        → P w
        → P (gateway_calls g api device_id calls p w).1
    unfolding gateway_calls
    gateway_calls-kept api device_id [] p w i = i
    gateway_calls-kept api device_id (c ∷ calls) p w i =
        gateway_calls-kept api device_id calls _ _ (
          rw (gateway_call_lem g api device_id c p w) (
            kept.written _ (call_payload c) _
              (open_stream-kept (call_key g api device_id c) (call_server c) p w i)))

    pub input-kept :
        (api : Codec) (device_id : ℕ) (packet : DataBuffer) (p : LocalPort) (w : World)
        → P w
        → P (input g api device_id packet p w).1
    unfolding input
    input-kept api device_id packet p w i =
        gateway_calls-kept api device_id (api.parse_gateway packet) p w i

    stream_state-kept : (k : Key) (p : LocalPort) (w : World) → P w → P (stream_state g k p w).1
    unfolding stream_state
    stream_state-kept k p w i = elim (Option-cases (find k p.stream_store)) [
      | inl e ↦ rw (e, stream_state) i
      | inr (st, e) ↦ elim (Bool-cases (is_link_error (link_state st.stream w))) [
        | inl bad ↦ rw (e, stream_state, bad) (kept.destroyed st.stream w i)
        | inr good ↦ rw (e, stream_state, good) i
      ]
    ]

    stream_state_all-kept :
        (keys : List Key) (p : LocalPort) (w : World) → P w → P (stream_state_all g keys p w).1
    unfolding stream_state_all
    stream_state_all-kept [] p w i = i
    stream_state_all-kept (k ∷ keys) p w i =
        stream_state_all-kept keys _ _ (stream_state-kept k p w i)

    pub on_stream_update-kept :
        (h : ℕ) (p : LocalPort) (w : World) → P w → P (on_stream_update g h p w).1
    unfolding on_stream_update
    on_stream_update-kept h p w i = stream_state_all-kept (subscribers h p.update_stream_subs) p w i
