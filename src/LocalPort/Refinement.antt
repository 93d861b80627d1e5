-- ===== src/LocalPort/Refinement.antt =====
-- A LocalPort as a function from keys: what stands under a key is the server and the log of the data
-- sent to it, and each operation changes one key (libs/gateway/local_port.cpp).
pub mod Events
pub mod Packets
use mathlib.Core.Option
use aether_gateway.Prelude.{
  ℕ, ◌≡◌, ◌≢◌, ◌∙◌, refl, sym, ap, Bool, true, false, List, [], ◌∷◌, ◌++◌, Option, none, some, inl,
  inr, Option-cases, Bool-cases, arith, if◌then◌else◌,
}
use aether_gateway.Map.{find, equiv}
use aether_gateway.Map.Laws.{equiv_refl, eq_of_equiv, ne_of_equiv, equiv_of_ne, find-modify}
use aether_gateway.Aether.{DataBuffer}
use aether_gateway.Aether.Api.{Codec, GatewayCall}
use aether_gateway.LocalPort.Keys.{ServeKind, Key, key_order}
use aether_gateway.LocalPort.Interface.{GwStreams}
use aether_gateway.LocalPort.Invariant.{IsValid}
use aether_gateway.LocalPort.Opening.{server_of, written_of, open_stream_other}
use aether_gateway.LocalPort.Routing.{
  call_key, call_server, call_payload, input-pack, input-delivers, input_isolated,
}
use aether_gateway.LocalPort.Links.{on_stream_update_broken, on_stream_update_healthy}
use aether_gateway.LocalPort.Histories.{Step, Step-IsValid}
use aether_gateway.LocalPort.{
  LocalPort, StreamStore, touch, input, out_data, out_data_all, on_out_data, on_stream_update,
  subscribers, is_link_error,
}

-- The abstract state of one key.
pub record Log : Type 0 where
  pub server : ServeKind
  pub sent : List DataBuffer

-- What happens at a port: a call of a device, data from a stream, and an update of the stream of a key,
-- with its link in error or not.
pub data PortEvent : Type 0 where
  called : (device_id : ℕ) → GatewayCall → PortEvent
  replied : (stream : ℕ) → DataBuffer → PortEvent
  broken healthy : Key → PortEvent

module _ (g : GwStreams) (api : Codec) where
  open g use {World, written, link_state}
  open api use {pack_gateway, endpoints_hash}

  -- Data for a key: the first call chooses the server.
  abbrev pub append : ServeKind → DataBuffer → Option Log → Option Log
  append server payload none = some (record { server = server; sent = payload ∷ [] })
  append server payload (some l) = some (record l { sent = l.sent ++ payload ∷ [] })

  -- The specification, at one key: a call appends to its own key, a broken link ends its own key's log,
  -- and nothing else matters.
  unfoldable pub spec_step : Key → PortEvent → Option Log → Option Log
  spec_step k (called device_id c) l =
      if equiv (call_key g api device_id c) k then append (call_server c) (call_payload c) l else l
  spec_step k (replied h payload) l = l
  spec_step k (broken j) l = if equiv j k then none else l
  spec_step k (healthy j) l = l

  unfoldable pub replay : Key → List PortEvent → Option Log → Option Log
  unfolding spec_step
  replay k [] l = l
  replay k (e ∷ es) l = replay k es (spec_step k e l)

  abbrev pub update_of : Option StreamStore → LocalPort → World → LocalPort × World
  update_of none p w = (p, w)
  update_of (some st) p w = on_stream_update g st.stream p w

  -- The port's own operations.
  unfoldable pub port_step : PortEvent → LocalPort → World → LocalPort × World
  port_step (called device_id c) p w = input g api device_id (pack_gateway c) p w
  port_step (replied h payload) p w = ((on_out_data g api h payload p w).0, w)
  port_step (broken k) p w = update_of (find k p.stream_store) p w
  port_step (healthy k) p w = update_of (find k p.stream_store) p w

  unfoldable pub run_port : List PortEvent → LocalPort → World → LocalPort × World
  unfolding port_step
  run_port [] p w = (p, w)
  run_port (e ∷ es) p w = let (p', w') = port_step e p w in run_port es p' w'

  abbrev pub LinkIs : Bool → Option StreamStore → World → Type 0
  LinkIs b none w = Unit
  LinkIs b (some st) w = is_link_error (link_state st.stream w) ≡ b

  abbrev pub FitsNow : PortEvent → LocalPort → World → Type 0
  FitsNow (called device_id c) p w = Unit
  FitsNow (replied h payload) p w = Unit
  FitsNow (broken k) p w = LinkIs true (find k p.stream_store) w
  FitsNow (healthy k) p w = LinkIs false (find k p.stream_store) w

  -- The events tell the state of the links as it is when they happen.
  abbrev pub Fits : List PortEvent → LocalPort → World → Type 0
  Fits [] p w = Unit
  Fits (e ∷ es) p w = FitsNow e p w × Fits es (port_step e p w).0 (port_step e p w).1

  abbrev pub log_of : World → Option StreamStore → Option Log
  log_of w none = none
  log_of w (some st) = some (record { server = st.server; sent = written w st.stream })

  -- A port as the specification sees it.
  abbrev pub view : LocalPort → World → Key → Option Log
  view p w k = log_of w (find k p.stream_store)

  pub view-touch :
      (key k : Key) (v : World) (p : LocalPort) (w : World)
      → view (touch g key v p) w k ≡ view p w k
  unfolding touch
  view-touch key k v p w =
      ap (log_of w)
        (find-modify k key (λ (st : StreamStore). record st { last_used = g.now v }) p.stream_store)
      ∙ same (equiv key k) (find k p.stream_store)
    where
      same :
          (b : Bool) (o : Option StreamStore)
          → log_of w (
              if b
              then Option.map (λ (st : StreamStore). record st { last_used = g.now v }) o
              else o)
            ≡ log_of w o
      same true none = refl
      same true (some st) = refl
      same false o = refl

  pub view-out_data_all :
      (keys : List Key) (payload : DataBuffer) (p : LocalPort) (w : World) (k : Key)
      → view (out_data_all g api keys payload p w).0 w k ≡ view p w k
  unfolding out_data_all out_data
  view-out_data_all [] payload p w k = refl
  view-out_data_all (j ∷ keys) payload p w k = elim (Option-cases (find j p.stream_store)) [
    | inl e ↦ rw (e, out_data) (view-out_data_all keys payload p w k)
    | inr (st, e) ↦
        rw (e, out_data) (view-out_data_all keys payload (touch g j w p) w k ∙ view-touch j k w p w)
  ]
