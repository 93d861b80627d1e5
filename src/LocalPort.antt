-- ===== src/LocalPort.antt =====
-- class LocalPort and class GatewayApiImpl (libs/gateway/local_port.h, libs/gateway/local_port.cpp).
-- A method takes the port and the world of its streams, and returns both; what it emits is a list.
pub mod Keys
pub mod Interface
pub mod Subscribers
pub mod Invariant
pub mod Preserve
pub mod Opening
pub mod Routing
pub mod Identity
pub mod Links
pub mod Histories
pub mod Refinement
pub mod Worlds
pub mod Answering
use aether_gateway.Prelude.{
  ℕ, ◌≡◌, Bool, true, false, List, [], ◌∷◌, ◌++◌, Option, none, some, if◌then◌else◌, ◌==◌,
}
use aether_gateway.Map.{Map, find, emplace, erase, modify}
use aether_gateway.Aether.{DataBuffer, LinkState, link_error, other_state, ServerEndpoints}
use aether_gateway.Aether.Api.{Codec, GatewayCall, to_server_id, to_server}
use Keys.{ServeKind, by_id, by_endpoints, Key, make_key, key_order}
use Interface.{GwStreams}

pub record StreamStore : Type 0 where
  pub last_used : ℕ
  pub server : ServeKind
  pub stream : ℕ

-- A subscription: the stream, and the key that the callback captured.
pub record Subscribed : Type 0 where
  pub stream : ℕ
  pub key : Key

pub record LocalPort : Type 0 where
  pub stream_store : Map Key StreamStore
  pub out_data_subs : List Subscribed
  pub update_stream_subs : List Subscribed

unfoldable pub new_local_port : LocalPort
new_local_port = record { stream_store = []; out_data_subs = []; update_stream_subs = [] }

-- One call of output_event_.Emit.
pub record Output : Type 0 where
  pub device_id : ℕ
  pub packet : DataBuffer

-- The keys of the callbacks that an event of the stream calls.
unfoldable pub subscribers : ℕ → List Subscribed → List Key
subscribers h [] = []
subscribers h (s ∷ subs) = if s.stream == h then s.key ∷ subscribers h subs else subscribers h subs

abbrev pub is_link_error : LinkState → Bool
is_link_error link_error = true
is_link_error (other_state _) = false

module _ (g : GwStreams) where
  open g use {World, now, make, destroy, write, link_state}

  -- `it->second.last_used = Now()`.
  unfoldable pub touch : Key → World → LocalPort → LocalPort
  touch key w p = record p {
    stream_store = modify key (λ st. record st { last_used = now w }) p.stream_store;
  }

  -- The branch of OpenStream for a key that is not in the store.
  unfoldable pub add_stream : Key → ServeKind → LocalPort → World → ℕ × LocalPort × World
  add_stream key server p w =
      let (h, w') = make server w in
      (
        h,
        record {
          stream_store =
              emplace key (record { last_used = 0; server = server; stream = h }) p.stream_store;
          out_data_subs = p.out_data_subs ++ record { stream = h; key = key } ∷ [];
          update_stream_subs = p.update_stream_subs ++ record { stream = h; key = key } ∷ [];
        },
        w',
      )

  -- OpenStream(Key, ServeKind): the handle of the stream, the port and the world.
  unfoldable pub open_stream : Key → ServeKind → LocalPort → World → ℕ × LocalPort × World
  unfolding touch add_stream
  open_stream key server p w = elim (find key p.stream_store) [
    | some st ↦ (st.stream, touch key w p, w)
    | none ↦ let (h, p', w') = add_stream key server p w in (h, touch key w' p', w')
  ]

  module _ (api : Codec) where
    open api use {parse_gateway, pack_client, endpoints_hash}

    -- ToServerId and ToServer of GatewayApiImpl: open the stream, and write to it.
    unfoldable pub gateway_call : ℕ → GatewayCall → LocalPort → World → LocalPort × World
    gateway_call device_id (to_server_id client_id server_id payload) p w =
        let server = by_id server_id in
        let (h, p', w') =
          open_stream (make_key endpoints_hash device_id client_id server) server p w in
        (p', write h payload w')
    gateway_call device_id (to_server client_id endpoints payload) p w =
        let server = by_endpoints endpoints in
        let (h, p', w') =
          open_stream (make_key endpoints_hash device_id client_id server) server p w in
        (p', write h payload w')

    -- The calls of one packet, in order.
    unfoldable pub gateway_calls : ℕ → List GatewayCall → LocalPort → World → LocalPort × World
    gateway_calls device_id [] p w = (p, w)
    gateway_calls device_id (c ∷ cs) p w =
        let (p', w') = gateway_call device_id c p w in gateway_calls device_id cs p' w'

    unfoldable pub input : ℕ → DataBuffer → LocalPort → World → LocalPort × World
    unfolding gateway_calls
    input device_id packet p w = gateway_calls device_id (parse_gateway packet) p w

    unfoldable pub out_data : Key → DataBuffer → LocalPort → World → LocalPort × List Output
    unfolding touch
    out_data key payload p w = elim (find key p.stream_store) [
      | none ↦ (p, [])
      | some st ↦ (
        touch key w p,
        record {
          device_id = key.device_id;
          packet = pack_client (record { client_id = key.client_id; payload = payload });
        }
            ∷ [],
      )
    ]

    -- The event of a stream that has data: every callback, in order.
    unfoldable pub out_data_all :
        List Key → DataBuffer → LocalPort → World → LocalPort × List Output
    out_data_all [] payload p w = (p, [])
    out_data_all (key ∷ keys) payload p w =
        let (p', out) = out_data key payload p w in
        let (p'', outs) = out_data_all keys payload p' w in (p'', out ++ outs)

    unfoldable pub on_out_data : ℕ → DataBuffer → LocalPort → World → LocalPort × List Output
    unfolding subscribers out_data_all
    on_out_data h payload p w = out_data_all (subscribers h p.out_data_subs) payload p w

  unfoldable pub stream_state : Key → LocalPort → World → LocalPort × World
  stream_state key p w = elim (find key p.stream_store) [
    | none ↦ (p, w)
    | some st ↦
        if is_link_error (link_state st.stream w)
        then (record p { stream_store = erase key p.stream_store }, destroy st.stream w)
        else (p, w)
  ]

  -- The update event of a stream.
  unfoldable pub stream_state_all : List Key → LocalPort → World → LocalPort × World
  stream_state_all [] p w = (p, w)
  stream_state_all (key ∷ keys) p w =
      let (p', w') = stream_state key p w in stream_state_all keys p' w'

  unfoldable pub on_stream_update : ℕ → LocalPort → World → LocalPort × World
  unfolding subscribers stream_state_all
  on_stream_update h p w = stream_state_all (subscribers h p.update_stream_subs) p w
