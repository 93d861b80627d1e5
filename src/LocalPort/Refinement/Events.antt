-- ===== src/LocalPort/Refinement/Events.antt =====
-- Each event of a LocalPort does to every key what the specification of one key says
-- (libs/gateway/local_port.cpp).
use aether_gateway.Prelude.{
  ℕ, ◌≡◌, ◌≢◌, ◌∙◌, refl, sym, ap, true, false, List, [], ◌∷◌, ◌++◌, Option, none, some, inl, inr,
  Option-cases, Bool-cases, if◌then◌else◌,
}
use aether_gateway.Map.{find, equiv, erase}
use aether_gateway.Map.Laws.{eq_of_equiv, ne_of_equiv, find-erase, find-erase_other}
use aether_gateway.Aether.{DataBuffer}
use aether_gateway.Aether.Api.{Codec, GatewayCall}
use aether_gateway.LocalPort.Keys.{ServeKind, Key, key_order}
use aether_gateway.LocalPort.Interface.{GwStreams}
use aether_gateway.LocalPort.Invariant.{IsValid, stream-injective}
use aether_gateway.LocalPort.Opening.{server_of, written_of, open_stream_other}
use aether_gateway.LocalPort.Routing.{
  call_key, call_server, call_payload, input-pack, input-delivers, input_isolated,
}
use aether_gateway.LocalPort.Links.{on_stream_update_erases, on_stream_update_healthy}
use aether_gateway.LocalPort.Histories.{received, answered, updated, Step-IsValid}
use aether_gateway.LocalPort.{LocalPort, StreamStore, input, on_out_data, subscribers}
use aether_gateway.LocalPort.Refinement.{
  PortEvent, called, replied, broken, healthy, append, spec_step, replay, update_of, port_step,
  run_port, LinkIs, FitsNow, Fits, log_of, view, view-out_data_all,
}

module _ (g : GwStreams) (api : Codec) where
  open g use {World, written, link_state}
  open api use {pack_gateway, endpoints_hash}

  append_lem :
      (server : ServeKind) (payload : DataBuffer) (o : Option StreamStore) (w w' : World)
      (st : StreamStore)
      → st.server ≡ server_of g o server
      → written w' st.stream ≡ written_of g o w ++ payload ∷ []
      → log_of g api w' (some st) ≡ append g api server payload (log_of g api w o)
  append_lem server payload none w w' st e f = rw (e, f)
  append_lem server payload (some su) w w' st e f = rw (e, f)

  view-called_self :
      (device_id : ℕ) (c : GatewayCall) (p : LocalPort) (w : World)
      → IsValid g endpoints_hash p w
      → let (p', w') = input g api device_id (pack_gateway c) p w in
        let k = call_key g api device_id c in
        view g api p' w' k ≡ append g api (call_server c) (call_payload c) (view g api p w k)
  view-called_self device_id c p w v =
      let (st, e, s, d) = input-delivers g api device_id c p w v in
      ap (log_of g api _) e
      ∙ append_lem (call_server c) (call_payload c)
          (find (call_key g api device_id c) p.stream_store) w _ st s d

  view-called_other :
      (device_id : ℕ) (c : GatewayCall) (p : LocalPort) (w : World) (k : Key)
      → IsValid g endpoints_hash p w
      → call_key g api device_id c ≢ k
      → let (p', w') = input g api device_id (pack_gateway c) p w in
        view g api p' w' k ≡ view g api p w k
  view-called_other device_id c p w k v ne = elim (Option-cases (find k p.stream_store)) [
    | inl e ↦
        ap (log_of g api _) (
          ap (λ r. find k r.0.stream_store) (input-pack g api device_id c p w)
          ∙ open_stream_other g (call_key g api device_id c) k (call_server c) p w ne)
        ∙ rw e
    | inr (st, e) ↦
        let (f, d) = input_isolated g api device_id c p w k st v ne e in
        ap (log_of g api _) f
        ∙ ap (λ l. some (record { server = st.server; sent = l })) d
        ∙ ap (log_of g api w) (sym e)
  ]

  view-called :
      (device_id : ℕ) (c : GatewayCall) (p : LocalPort) (w : World) (k : Key)
      → IsValid g endpoints_hash p w
      → let (p', w') = input g api device_id (pack_gateway c) p w in
        view g api p' w' k ≡ spec_step g api k (called device_id c) (view g api p w k)
  unfolding spec_step
  view-called device_id c p w k v = elim (Bool-cases (equiv (call_key g api device_id c) k)) [
    | inl e ↦
        let q = eq_of_equiv (call_key g api device_id c) k e in
        rw (e, sym q) (view-called_self device_id c p w v)
    | inr e ↦
        rw e (view-called_other device_id c p w k v (ne_of_equiv (call_key g api device_id c) k e))
  ]

  view-missing :
      (j k : Key) (p : LocalPort) (w : World)
      → find j p.stream_store ≡ none
      → view g api p w k ≡ (if equiv j k then none else view g api p w k)
  view-missing j k p w e = elim (Bool-cases (equiv j k)) [
    | inl q ↦ rw (q, sym (eq_of_equiv j k q), e)
    | inr q ↦ rw q
  ]

  log_of-destroy :
      (j k : Key) (p : LocalPort) (w : World) (st : StreamStore) (o : Option StreamStore)
      → IsValid g endpoints_hash p w
      → find j p.stream_store ≡ some st
      → j ≢ k
      → find k p.stream_store ≡ o
      → log_of g api (g.destroy st.stream w) o ≡ log_of g api w o
  log_of-destroy j k p w st none v e ne f = refl
  log_of-destroy j k p w st (some su) v e ne f =
      ap (λ l. some (record { server = su.server; sent = l }))
        (g.written-destroy_other st.stream w su.stream
          (λ r. ne (stream-injective g endpoints_hash p w j k st su v e f (sym r))))

  view-erased :
      (j k : Key) (p : LocalPort) (w : World) (st : StreamStore)
      → IsValid g endpoints_hash p w
      → find j p.stream_store ≡ some st
      → log_of g api (g.destroy st.stream w) (find k (erase j p.stream_store))
        ≡ (if equiv j k then none else view g api p w k)
  view-erased j k p w st v e = elim (Bool-cases (equiv j k)) [
    | inl q ↦ rw (find-erase k j p.stream_store, q)
    | inr q ↦
        let ne = ne_of_equiv j k q in
        rw (q, find-erase_other k j p.stream_store ne)
          (log_of-destroy j k p w st (find k p.stream_store) v e ne refl)
  ]

  view-broken :
      (j : Key) (p : LocalPort) (w : World) (k : Key)
      → IsValid g endpoints_hash p w
      → FitsNow g api (broken j) p w
      → let (p', w') = port_step g api (broken j) p w in
        view g api p' w' k ≡ spec_step g api k (broken j) (view g api p w k)
  unfolding spec_step port_step
  view-broken j p w k v fit = by_entry (find j p.stream_store) refl fit
    where
      by_entry :
          (o : Option StreamStore)
          → find j p.stream_store ≡ o
          → LinkIs g api true o w
          → let (p', w') = update_of g api o p w in
            view g api p' w' k ≡ (if equiv j k then none else view g api p w k)
      by_entry none e fit = view-missing j k p w e
      by_entry (some st) e fit =
          rw (on_stream_update_erases g endpoints_hash p w j st v e fit)
            (view-erased j k p w st v e)

  view-healthy :
      (j : Key) (p : LocalPort) (w : World) (k : Key)
      → IsValid g endpoints_hash p w
      → FitsNow g api (healthy j) p w
      → let (p', w') = port_step g api (healthy j) p w in view g api p' w' k ≡ view g api p w k
  unfolding port_step
  view-healthy j p w k v fit = by_entry (find j p.stream_store) refl fit
    where
      by_entry :
          (o : Option StreamStore)
          → find j p.stream_store ≡ o
          → LinkIs g api false o w
          → let (p', w') = update_of g api o p w in view g api p' w' k ≡ view g api p w k
      by_entry none e fit = refl
      by_entry (some st) e fit = rw (on_stream_update_healthy g endpoints_hash p w j st v e fit)

  pub view-port_step :
      (e : PortEvent) (p : LocalPort) (w : World) (k : Key)
      → IsValid g endpoints_hash p w
      → FitsNow g api e p w
      → let (p', w') = port_step g api e p w in
        view g api p' w' k ≡ spec_step g api k e (view g api p w k)
  unfolding spec_step port_step on_out_data
  view-port_step (called device_id c) p w k v fit = view-called device_id c p w k v
  view-port_step (replied h payload) p w k v fit =
      view-out_data_all g api (subscribers h p.out_data_subs) payload p w k
  view-port_step (broken j) p w k v fit = view-broken j p w k v fit
  view-port_step (healthy j) p w k v fit = view-healthy j p w k v fit

  update_of-IsValid :
      (o : Option StreamStore) (p : LocalPort) (w : World)
      → IsValid g endpoints_hash p w
      → let (p', w') = update_of g api o p w in IsValid g endpoints_hash p' w'
  update_of-IsValid none p w v = v
  update_of-IsValid (some st) p w v = Step-IsValid g api (updated st.stream) v

  pub port_step-IsValid :
      (e : PortEvent) (p : LocalPort) (w : World)
      → IsValid g endpoints_hash p w
      → let (p', w') = port_step g api e p w in IsValid g endpoints_hash p' w'
  unfolding port_step
  port_step-IsValid (called device_id c) p w v =
      Step-IsValid g api (received device_id (pack_gateway c)) v
  port_step-IsValid (replied h payload) p w v = Step-IsValid g api (answered h payload) v
  port_step-IsValid (broken j) p w v = update_of-IsValid (find j p.stream_store) p w v
  port_step-IsValid (healthy j) p w v = update_of-IsValid (find j p.stream_store) p w v

  -- A valid port refines a map from keys to logs: after any sequence of calls of devices, data from
  -- streams, and updates of stored streams whose link is in error or not as the event says, every
  -- key holds the server of its first call since its link last broke, and its stream holds the data
  -- of its own calls since then, in order, after what it had.
  pub run_port_refines :
      (es : List PortEvent) (p : LocalPort) (w : World) (k : Key)
      → IsValid g endpoints_hash p w
      → Fits g api es p w
      → let (p', w') = run_port g api es p w in
        view g api p' w' k ≡ replay g api k es (view g api p w k)
  unfolding run_port replay
  run_port_refines [] p w k v fits = refl
  run_port_refines (e ∷ es) p w k v fits =
      run_port_refines es _ _ k (port_step-IsValid e p w v) fits.1
      ∙ ap (replay g api k es) (view-port_step e p w k v fits.0)
