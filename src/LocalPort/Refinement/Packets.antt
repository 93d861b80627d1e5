-- ===== src/LocalPort/Refinement/Packets.antt =====
-- What a LocalPort emits over any sequence of calls, data from streams and updates of links, against a
-- map from keys to logs (libs/gateway/local_port.cpp).
use aether_gateway.Prelude.{
  ℕ, ◌≡◌, ◌∙◌, refl, ap, true, false, List, [], ◌∷◌, ◌++◌, map, map-append, Option, none, some,
}
use aether_gateway.Map.{find}
use aether_gateway.Aether.{DataBuffer}
use aether_gateway.Aether.Api.{Codec, GatewayCall, ClientCall}
use aether_gateway.LocalPort.Keys.{Key, key_order}
use aether_gateway.LocalPort.Interface.{GwStreams}
use aether_gateway.LocalPort.Invariant.{IsValid}
use aether_gateway.LocalPort.Routing.{on_out_data_lem}
use aether_gateway.LocalPort.{LocalPort, StreamStore, Output, on_out_data}
use aether_gateway.LocalPort.Refinement.{
  Log, called, replied, broken, healthy, spec_step, port_step, LinkIs, view,
}
use aether_gateway.LocalPort.Refinement.Events.{view-port_step, port_step-IsValid}

-- A call of a device, data from the stream of a key, if it has one, and an update of that stream, with
-- its link in error or not.
pub data Traffic : Type 0 where
  asked : (device_id : ℕ) → GatewayCall → Traffic
  heard : Key → DataBuffer → Traffic
  failed fine : Key → Traffic

-- A packet as its device reads it.
pub record Reading : Type 0 where
  pub device_id : ℕ
  pub calls : List ClientCall

-- What every key has, and the specification of a port: data for a key that has a log is one call for
-- the client of the key, read by the device of the key; nothing else is emitted.
abbrev pub Logs : Type 0
Logs = Key → Option Log

abbrev pub reading : Key → DataBuffer → Option Log → List Reading
reading k payload none = []
reading k payload (some _) =
    record {
      device_id = k.device_id;
      calls = record { client_id = k.client_id; payload = payload } ∷ [];
    }
    ∷ []

module _ (g : GwStreams) (api : Codec) where
  open g use {World}
  open api use {parse_client, endpoints_hash}

  abbrev pub readings : Traffic → Logs → List Reading
  readings (heard k payload) logs = reading k payload (logs k)
  readings _ logs = []

  abbrev pub next_logs : Traffic → Logs → Logs
  next_logs (asked device_id c) logs = λ k. spec_step g api k (called device_id c) (logs k)
  next_logs (heard _ _) logs = logs
  next_logs (failed j) logs = λ k. spec_step g api k (broken j) (logs k)
  next_logs (fine j) logs = logs

  abbrev pub expected : List Traffic → Logs → List Reading
  expected [] logs = []
  expected (t ∷ ts) logs = readings t logs ++ expected ts (next_logs t logs)

  -- The port: what it emits, and what it is after it.
  abbrev pub Emitted : Type 0
  Emitted = List Output × (LocalPort × World)

  abbrev pub stream_heard : Option StreamStore → DataBuffer → LocalPort → World → Emitted
  stream_heard none payload p w = ([], (p, w))
  stream_heard (some st) payload p w =
      let (p', out) = on_out_data g api st.stream payload p w in (out, (p', w))

  abbrev pub handle : Traffic → LocalPort → World → Emitted
  handle (asked device_id c) p w = ([], port_step g api (called device_id c) p w)
  handle (heard k payload) p w = stream_heard (find k p.stream_store) payload p w
  handle (failed k) p w = ([], port_step g api (broken k) p w)
  handle (fine k) p w = ([], port_step g api (healthy k) p w)

  abbrev pub emitted : List Traffic → LocalPort → World → List Output
  emitted [] p w = []
  emitted (t ∷ ts) p w = let (out, (p', w')) = handle t p w in out ++ emitted ts p' w'

  -- The traffic tells the state of the links as it is when it happens.
  abbrev pub FitsLink : Traffic → LocalPort → World → Type 0
  FitsLink (failed k) p w = LinkIs g api true (find k p.stream_store) w
  FitsLink (fine k) p w = LinkIs g api false (find k p.stream_store) w
  FitsLink _ p w = Unit

  abbrev pub FitsLinks : List Traffic → LocalPort → World → Type 0
  FitsLinks [] p w = Unit
  FitsLinks (t ∷ ts) p w = FitsLink t p w × FitsLinks ts (handle t p w).1.0 (handle t p w).1.1

  abbrev pub read_output : Output → Reading
  read_output o = record { device_id = o.device_id; calls = parse_client o.packet }

  abbrev pub logs_of : LocalPort → World → Logs
  logs_of p w = λ k. view g api p w k

  record IsHandled (t : Traffic) (p : LocalPort) (w : World) : Type 0 where
    out : map read_output (handle t p w).0 ≡ readings t (logs_of p w)
    logs : (k : Key) → logs_of (handle t p w).1.0 (handle t p w).1.1 k ≡ next_logs t (logs_of p w) k
    valid : IsValid g endpoints_hash (handle t p w).1.0 (handle t p w).1.1

  heard-IsHandled :
      (k : Key) (payload : DataBuffer) (p : LocalPort) (w : World)
      → IsValid g endpoints_hash p w
      → IsHandled (heard k payload) p w
  unfolding spec_step port_step
  heard-IsHandled k payload p w v = by_entry (find k p.stream_store) refl
    where
      by_entry :
          (o : Option StreamStore) → find k p.stream_store ≡ o → IsHandled (heard k payload) p w
      by_entry none e = record { out = rw e refl; logs = λ j. rw e refl; valid = rw e v }
      by_entry (some st) e = record {
        out = rw (e, on_out_data_lem g api p w k st payload v e, api.parse-pack_client) refl;
        logs = λ j. rw e (view-port_step g api (replied st.stream payload) p w j v tt);
        valid = rw e (port_step-IsValid g api (replied st.stream payload) p w v);
      }

  handle-IsHandled :
      (t : Traffic) (p : LocalPort) (w : World)
      → IsValid g endpoints_hash p w
      → FitsLink t p w
      → IsHandled t p w
  unfolding spec_step
  handle-IsHandled (asked device_id c) p w v q = record {
    out = refl;
    logs = λ k. view-port_step g api (called device_id c) p w k v tt;
    valid = port_step-IsValid g api (called device_id c) p w v;
  }
  handle-IsHandled (heard k payload) p w v q = heard-IsHandled k payload p w v
  handle-IsHandled (failed j) p w v q = record {
    out = refl;
    logs = λ k. view-port_step g api (broken j) p w k v q;
    valid = port_step-IsValid g api (broken j) p w v;
  }
  handle-IsHandled (fine j) p w v q = record {
    out = refl;
    logs = λ k. view-port_step g api (healthy j) p w k v q;
    valid = port_step-IsValid g api (healthy j) p w v;
  }

  -- What a valid port emits over any sequence of calls of devices, data from the streams of keys,
  -- and updates of these streams whose link is in error or not as the sequence says, is read by the
  -- devices as the map from keys to logs expects: data from the stream of a key that has a log is
  -- one packet, in order, for the device of the key, with one call of from_server for its client;
  -- and nothing else is emitted.
  pub emitted-expected :
      (ts : List Traffic) (p : LocalPort) (w : World)
      → IsValid g endpoints_hash p w
      → FitsLinks ts p w
      → map read_output (emitted ts p w) ≡ expected ts (logs_of p w)
  emitted-expected [] p w v q = refl
  emitted-expected (t ∷ ts) p w v q =
      let h = handle-IsHandled t p w v q.0 in
      map-append read_output (handle t p w).0 _
      ∙ ap (λ l. l ++ map read_output (emitted ts (handle t p w).1.0 (handle t p w).1.1)) h.out
      ∙ ap (λ l. readings t (logs_of p w) ++ l)
          (emitted-expected ts _ _ h.valid q.1 ∙ ap (expected ts) (λ i. λ k. h.logs k i))
