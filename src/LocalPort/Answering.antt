-- ===== src/LocalPort/Answering.antt =====
-- What a stream sends back: LocalPort::OutData, from the event of a stream on (libs/gateway/local_port.cpp).
use aether_gateway.Prelude.{ℕ, ◌≡◌, ◌≢◌, ◌∙◌, refl, List, [], ◌∷◌, some}
use aether_gateway.Map.{find}
use aether_gateway.Map.Laws.{find-modify, find-modify_other, equiv_refl}
use aether_gateway.Aether.{DataBuffer}
use aether_gateway.Aether.Api.{Codec}
use aether_gateway.LocalPort.Keys.{Key, key_order}
use aether_gateway.LocalPort.Interface.{GwStreams}
use aether_gateway.LocalPort.Invariant.{IsValid}
use aether_gateway.LocalPort.Routing.{on_out_data_lem}
use aether_gateway.LocalPort.{LocalPort, StreamStore, Output, touch, on_out_data}

module _ (g : GwStreams) (api : Codec) where
  open g use {World, now}
  open api use {pack_client, parse_client, endpoints_hash}

  -- One packet for the device of the key, which reads as one call for its client; and of the port, the
  -- time of the key's last use alone is new.
  pub record IsAnswered (k : Key) (st : StreamStore) (payload : DataBuffer) (time : ℕ)
      (p p' : LocalPort) (out : List Output) : Type 0 where
    pub packet : DataBuffer
    pub emitted : out ≡ record { device_id = k.device_id; packet = packet } ∷ []
    pub reads : parse_client packet ≡ record { client_id = k.client_id; payload = payload } ∷ []
    pub entry :
        find k p'.stream_store
        ≡ some (record { last_used = time; server = st.server; stream = st.stream })
    pub others : (j : Key) → k ≢ j → find j p'.stream_store ≡ find j p.stream_store
    pub heard : p'.out_data_subs ≡ p.out_data_subs
    pub watched : p'.update_stream_subs ≡ p.update_stream_subs

  answered_lem :
      (p : LocalPort) (w : World) (k : Key) (st : StreamStore) (payload : DataBuffer)
      → find k p.stream_store ≡ some st
      → IsAnswered k st payload (now w) p (touch g k w p) (
          record {
            device_id = k.device_id;
            packet = pack_client (record { client_id = k.client_id; payload = payload });
          }
          ∷ [])
  unfolding touch
  answered_lem p w k st payload e = record {
    packet = pack_client (record { client_id = k.client_id; payload = payload });
    emitted = refl;
    reads = api.parse-pack_client _;
    entry =
        find-modify k k (λ (u : StreamStore). record u { last_used = now w }) p.stream_store
        ∙ rw (equiv_refl k, e) refl;
    others = λ j ne.
        find-modify_other j k (λ (u : StreamStore). record u { last_used = now w }) p.stream_store
          ne;
    heard = refl;
    watched = refl;
  }

  -- Data from a stored stream of a valid port becomes exactly one packet, for the device of the
  -- stream's key, which reads as one call of from_server for the client of the key with that data.
  -- The entry of the key has the present time as its last use and keeps its server and stream; the
  -- entries of other keys and all subscriptions stay.
  pub on_out_data-IsAnswered :
      (p : LocalPort) (w : World) (k : Key) (st : StreamStore) (payload : DataBuffer)
      → IsValid g endpoints_hash p w
      → find k p.stream_store ≡ some st
      → let (p', out) = on_out_data g api st.stream payload p w in
        IsAnswered k st payload (now w) p p' out
  on_out_data-IsAnswered p w k st payload v e =
      rw (on_out_data_lem g api p w k st payload v e) (answered_lem p w k st payload e)
