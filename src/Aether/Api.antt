-- ===== src/Aether/Api.antt =====
-- The API classes of libs/gateway/api: GatewayApi (method 3 ToServerId, method 4 ToServer) and
-- ClientApi (method 3 from_server). The library packs calls into a packet and parses a packet into
-- calls; std::hash<ServerEndpoints> is its too.
use aether_gateway.Prelude.{ℕ, ◌≡◌, List, [], ◌∷◌}
use aether_gateway.Aether.{DataBuffer, ServerEndpoints}

-- One call of GatewayApi, as a packet carries it.
pub data GatewayCall : Type 0 where
  to_server_id : (client_id server_id : ℕ) → DataBuffer → GatewayCall
  to_server : (client_id : ℕ) → ServerEndpoints → DataBuffer → GatewayCall

-- One call of ClientApi.
pub record ClientCall : Type 0 where
  pub client_id : ℕ
  pub payload : DataBuffer

pub record Codec : Type 0 where
  -- ApiContext: a packet with one call.
  pub pack_gateway : GatewayCall → DataBuffer
  pub pack_client : ClientCall → DataBuffer
  -- ApiParser: the calls of a packet, in order.
  pub parse_gateway : DataBuffer → List GatewayCall
  pub parse_client : DataBuffer → List ClientCall
  pub endpoints_hash : ServerEndpoints → ℕ
  pub parse-pack_gateway : (c : GatewayCall) → parse_gateway (pack_gateway c) ≡ c ∷ []
  pub parse-pack_client : (c : ClientCall) → parse_client (pack_client c) ≡ c ∷ []
