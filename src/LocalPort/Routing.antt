-- ===== src/LocalPort/Routing.antt =====
-- Where the data goes: from a device to the stream of its client and server, and from a stream back
-- to the device and client that opened it (libs/gateway/local_port.cpp).
use aether_gateway.Prelude.{
  ℕ, ◌≡◌, ◌≢◌, ◌∙◌, ap, sym, refl, List, [], ◌∷◌, ◌++◌, some, inl, inr, Option-cases,
}
use aether_gateway.Map.{find}
use aether_gateway.Aether.{DataBuffer}
use aether_gateway.Aether.Api.{Codec, GatewayCall, to_server_id, to_server}
use aether_gateway.LocalPort.Keys.{
  ServeKind, by_id, by_endpoints, Key, make_key, server_identity, key_order,
}
use aether_gateway.LocalPort.Interface.{GwStreams}
use aether_gateway.LocalPort.Invariant.{IsValid, touch-IsValid, stream-injective, stored-lt-fresh}
use aether_gateway.LocalPort.Preserve.{open_stream-IsValid, write-IsValid}
use aether_gateway.LocalPort.Opening.{
  open_stream-Opened, open_stream_other, written-open_stream, written_of, server_of,
}
use aether_gateway.LocalPort.{
  LocalPort, StreamStore, touch, open_stream, gateway_call, gateway_calls, input, out_data,
  on_out_data,
}

-- The client, the server and the data of a call of GatewayApi.
abbrev pub call_client : GatewayCall → ℕ
call_client (to_server_id c s d) = c
call_client (to_server c e d) = c

abbrev pub call_server : GatewayCall → ServeKind
call_server (to_server_id c s d) = by_id s
call_server (to_server c e d) = by_endpoints e

abbrev pub call_payload : GatewayCall → DataBuffer
call_payload (to_server_id c s d) = d
call_payload (to_server c e d) = d

module _ (g : GwStreams) (api : Codec) where
  open g use {World, write, written, serves}
  open api use {parse_gateway, pack_gateway, pack_client, endpoints_hash}

  abbrev pub call_key : ℕ → GatewayCall → Key
  call_key device_id c = make_key endpoints_hash device_id (call_client c) (call_server c)

  -- Both methods are one: the stream of the call's key is opened, and written to.
  pub gateway_call_lem :
      (device_id : ℕ) (c : GatewayCall) (p : LocalPort) (w : World)
      → gateway_call g api device_id c p w ≡ (
          let (h, p', w') = open_stream g (call_key device_id c) (call_server c) p w in
          (p', write h (call_payload c) w'))
  unfolding gateway_call
  gateway_call_lem device_id (to_server_id c s d) p w = refl
  gateway_call_lem device_id (to_server c e d) p w = refl

  call_keyed :
      (device_id : ℕ) (c : GatewayCall)
      → server_identity endpoints_hash (call_server c) ≡ (call_key device_id c).server_identity
  unfolding make_key
  call_keyed device_id c = refl

  pub gateway_call-IsValid :
      (device_id : ℕ) (c : GatewayCall) (p : LocalPort) (w : World)
      → IsValid g endpoints_hash p w
      → IsValid g endpoints_hash
          (gateway_call g api device_id c p w).0
          (gateway_call g api device_id c p w).1
  gateway_call-IsValid device_id c p w v = rw (gateway_call_lem device_id c p w) (
      write-IsValid g endpoints_hash _ _ _ _
        (open_stream-IsValid g endpoints_hash _ _ p w v (call_keyed device_id c)))

  pub input-IsValid :
      (device_id : ℕ) (packet : DataBuffer) (p : LocalPort) (w : World)
      → IsValid g endpoints_hash p w
      → IsValid g endpoints_hash
          (input g api device_id packet p w).0
          (input g api device_id packet p w).1
  unfolding input
  input-IsValid device_id packet p w v = calls (parse_gateway packet) p w v
    where
      calls :
          (cs : List GatewayCall) (p : LocalPort) (w : World)
          → IsValid g endpoints_hash p w
          → IsValid g endpoints_hash
              (gateway_calls g api device_id cs p w).0
              (gateway_calls g api device_id cs p w).1
      calls [] p w v = v
      calls (c ∷ cs) p w v = calls cs _ _ (gateway_call-IsValid device_id c p w v)

  -- A packet with one call.
  pub input-pack :
      (device_id : ℕ) (c : GatewayCall) (p : LocalPort) (w : World)
      → input g api device_id (pack_gateway c) p w ≡ (
          let (h, p', w') = open_stream g (call_key device_id c) (call_server c) p w in
          (p', write h (call_payload c) w'))
  unfolding input
  input-pack device_id c p w = rw (api.parse-pack_gateway c) (gateway_call_lem device_id c p w)

  pub input-delivers :
      (device_id : ℕ) (c : GatewayCall) (p : LocalPort) (w : World)
      → IsValid g endpoints_hash p w
      → let (p', w') = input g api device_id (pack_gateway c) p w in
        let before = find (call_key device_id c) p.stream_store in
        (st : StreamStore) × (find (call_key device_id c) p'.stream_store ≡ some st)
        × (st.server ≡ server_of g before (call_server c))
        × (written w' st.stream ≡ written_of g before w ++ call_payload c ∷ [])
  input-delivers device_id c p w v =
      let key = call_key device_id c in
      let (st, o) = open_stream-Opened g key (call_server c) p w in
      let valid =
        open_stream-IsValid g endpoints_hash key (call_server c) p w v (call_keyed device_id c) in
      let exists = (valid.stored key st o.found).served in
      let q = input-pack device_id c p w in
      (
        st,
        rw q o.found,
        o.kept,
        rw (q, o.returned)
            (g.written-write_self _ _ _ _ exists ∙ ap (λ l. l ++ call_payload c ∷ []) o.history),
      )

  -- A call to a valid port touches no other entry of the store, and writes to no other stored
  -- stream: neither those of other devices and clients, nor those of the same client for other
  -- server identities.
  pub input_isolated :
      (device_id : ℕ) (c : GatewayCall) (p : LocalPort) (w : World) (k : Key) (st : StreamStore)
      → IsValid g endpoints_hash p w
      → call_key device_id c ≢ k
      → find k p.stream_store ≡ some st
      → let (p', w') = input g api device_id (pack_gateway c) p w in
        (find k p'.stream_store ≡ some st) × (written w' st.stream ≡ written w st.stream)
  input_isolated device_id c p w k st v ne e =
      let key = call_key device_id c in
      let server = call_server c in
      let (su, o) = open_stream-Opened g key server p w in
      let kept = open_stream_other g key k server p w ne ∙ e in
      let apart : st.stream ≢ (open_stream g key server p w).0 = λ q. ne (
        stream-injective g endpoints_hash _ _ key k su st
          (open_stream-IsValid g endpoints_hash key server p w v (call_keyed device_id c)) o.found
          kept (sym (q ∙ o.returned))) in
      let q = input-pack device_id c p w in
      (
        rw q kept,
        rw q (
            g.written-write_other _ _ _ _ apart
            ∙ written-open_stream g key server p w st.stream
                (stored-lt-fresh g endpoints_hash p w k st v e)),
      )

  out_data_stored :
      (p : LocalPort) (w : World) (k : Key) (st : StreamStore) (payload : DataBuffer)
      → find k p.stream_store ≡ some st
      → out_data g api k payload p w ≡ (
        touch g k w p,
        record {
          device_id = k.device_id;
          packet = pack_client (record { client_id = k.client_id; payload = payload });
        }
            ∷ [],
      )
  unfolding out_data
  out_data_stored p w k st payload e = rw (e, out_data)

  pub out_data-IsValid :
      (k : Key) (payload : DataBuffer) (p : LocalPort) (w : World)
      → IsValid g endpoints_hash p w
      → IsValid g endpoints_hash (out_data g api k payload p w).0 w
  unfolding out_data
  out_data-IsValid k payload p w v = elim (Option-cases (find k p.stream_store)) [
    | inl e ↦ rw (e, out_data) v
    | inr (st, e) ↦ rw (e, out_data) (touch-IsValid g endpoints_hash k w p w v)
  ]

  -- What an event of data from a stored stream computes to.
  pub on_out_data_lem :
      (p : LocalPort) (w : World) (k : Key) (st : StreamStore) (payload : DataBuffer)
      → IsValid g endpoints_hash p w
      → find k p.stream_store ≡ some st
      → on_out_data g api st.stream payload p w ≡ (
        touch g k w p,
        record {
          device_id = k.device_id;
          packet = pack_client (record { client_id = k.client_id; payload = payload });
        }
            ∷ [],
      )
  unfolding on_out_data
  on_out_data_lem p w k st payload v e =
      rw ((v.stored k st e).routed, out_data_stored p w k st payload e)

  -- After a call of a device to a valid port, whatever the stream of the call sends back goes to
  -- that device and that client, in one packet.
  pub answer_reaches_caller :
      (device_id : ℕ) (c : GatewayCall) (p : LocalPort) (w : World) (answer : DataBuffer)
      → IsValid g endpoints_hash p w
      → let (p', w') = input g api device_id (pack_gateway c) p w in
        (st : StreamStore) × (find (call_key device_id c) p'.stream_store ≡ some st)
        × ((on_out_data g api st.stream answer p' w').1
            ≡ record {
              device_id = device_id;
              packet = pack_client (record { client_id = call_client c; payload = answer });
            }
              ∷ [])
  unfolding make_key
  answer_reaches_caller device_id c p w answer v =
      let (st, e, _, _) = input-delivers device_id c p w v in
      (
        st,
        e,
        ap (λ r. r.1)
            (on_out_data_lem _ _ _ st answer (input-IsValid device_id (pack_gateway c) p w v) e),
      )
