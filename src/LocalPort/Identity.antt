-- ===== src/LocalPort/Identity.antt =====
-- How far a key tells servers apart: LocalPort::Key holds 32 bits of the server id or of the hash of
-- the endpoints, with no mark that says which (libs/gateway/local_port.cpp).
use aether_gateway.Prelude.{ℕ, ◌≡◌, ◌∙◌, ap, refl, [], ◌∷◌, ◌++◌, some, none, Option}
use aether_gateway.Map.{find}
use aether_gateway.Aether.Api.{Codec, GatewayCall}
use aether_gateway.LocalPort.Keys.{ServeKind, make_key, server_identity, key_order}
use aether_gateway.LocalPort.Interface.{GwStreams}
use aether_gateway.LocalPort.Invariant.{IsValid}
use aether_gateway.LocalPort.Routing.{
  call_key, call_server, call_client, call_payload, input-delivers, input-IsValid, input-pack,
}
use aether_gateway.LocalPort.Opening.{server_of, open_stream_stored}
use aether_gateway.LocalPort.{LocalPort, StreamStore, input, touch}

module _ (g : GwStreams) (api : Codec) where
  open g use {World, written, serves}
  open api use {pack_gateway, endpoints_hash}

  -- Where the key of a call to a valid port is not stored yet, or is stored for the very server of
  -- the call, the stream of that key serves the server of the call after it.
  pub input_right_server :
      (device_id : ℕ) (c : GatewayCall) (p : LocalPort) (w : World)
      → IsValid g endpoints_hash p w
      → ((st : StreamStore)
          → find (call_key g api device_id c) p.stream_store ≡ some st
          → st.server ≡ call_server c)
      → let (p', w') = input g api device_id (pack_gateway c) p w in
        (st : StreamStore) × (find (call_key g api device_id c) p'.stream_store ≡ some st)
        × (serves w' st.stream ≡ some (call_server c))
  input_right_server device_id c p w v same =
      let (st, e, kept, _) = input-delivers g api device_id c p w v in
      let served = ((input-IsValid g api device_id (pack_gateway c) p w v).stored _ st e).served in
      (
        st,
        e,
        served ∙ ap some (kept ∙ known (find (call_key g api device_id c) p.stream_store) same),
      )
    where
      known :
          (before : Option StreamStore)
          → ((st : StreamStore) → before ≡ some st → st.server ≡ call_server c)
          → server_of g before (call_server c) ≡ call_server c
      known none same = refl
      known (some st) same = same st refl

  input_stored :
      (device_id : ℕ) (c : GatewayCall) (p : LocalPort) (w : World) (st : StreamStore)
      → find (call_key g api device_id c) p.stream_store ≡ some st
      → input g api device_id (pack_gateway c) p w
        ≡ (touch g (call_key g api device_id c) w p, g.write st.stream (call_payload c) w)
  input_stored device_id c p w st e = rw (
    input-pack g api device_id c p w,
    open_stream_stored g (call_key g api device_id c) (call_server c) p w st e,
  )

  -- Where the servers of two calls agree in the 32 bits of a key, as an id and the hash of
  -- endpoints can, the first one that a client of a device uses takes the data for the other: in a
  -- valid port that stores a stream for the one, a call for the other is written to that stream,
  -- which still serves the first.
  pub identity_collision :
      (device_id : ℕ) (c : GatewayCall) (p : LocalPort) (w : World) (other : ServeKind)
      (st : StreamStore)
      → IsValid g endpoints_hash p w
      → find (make_key endpoints_hash device_id (call_client c) other) p.stream_store ≡ some st
      → st.server ≡ other
      → server_identity endpoints_hash other ≡ server_identity endpoints_hash (call_server c)
      → let (p', w') = input g api device_id (pack_gateway c) p w in
        (serves w' st.stream ≡ some other)
        × (written w' st.stream ≡ written w st.stream ++ call_payload c ∷ [])
  unfolding make_key
  identity_collision device_id c p w other st v e q same =
      let e' : find (call_key g api device_id c) p.stream_store ≡ some st = rw same at e in
      let i = input_stored device_id c p w st e' in
      (
        rw i (g.serves-write _ _ w st.stream ∙ (v.stored _ st e').served ∙ ap some q),
        rw i (g.written-write_self st.stream _ w st.server (v.stored _ st e').served),
      )
