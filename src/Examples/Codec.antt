-- ===== src/Examples/Codec.antt =====
-- A codec of the API calls: a method number, the arguments, and the payload up to the end of the
-- packet. Lists carry their length (libs/gateway/api).
use aether_gateway.Prelude.{
  ℕ, zero, suc, ◌+◌, ◌==◌, if◌then◌else◌, ◌≡◌, refl, ap, ◌∙◌, List, [], ◌∷◌, ◌++◌, length,
}
use aether_gateway.Aether.{DataBuffer, Protocol, tcp, udp, other_protocol, Endpoint}
use aether_gateway.Aether.Api.{GatewayCall, to_server_id, to_server, ClientCall, Codec}

abbrev put_protocol : Protocol → DataBuffer → DataBuffer
put_protocol tcp rest = 0 ∷ 0 ∷ rest
put_protocol udp rest = 1 ∷ 0 ∷ rest
put_protocol (other_protocol n) rest = 2 ∷ n ∷ rest

abbrev protocol_of : ℕ → ℕ → Protocol
protocol_of zero n = tcp
protocol_of (suc zero) n = udp
protocol_of (suc (suc k)) n = other_protocol n

-- The first n bytes, and the rest.
abbrev split_at : ℕ → DataBuffer → DataBuffer × DataBuffer
split_at zero xs = ([], xs)
split_at (suc n) [] = ([], [])
split_at (suc n) (x ∷ xs) = let (a, r) = split_at n xs in (x ∷ a, r)

abbrev put_endpoint : Endpoint → DataBuffer → DataBuffer
put_endpoint e rest = length e.ip ∷ (e.ip ++ e.port ∷ put_protocol e.protocol rest)

abbrev put_endpoints : List Endpoint → DataBuffer → DataBuffer
put_endpoints [] rest = rest
put_endpoints (e ∷ es) rest = put_endpoint e (put_endpoints es rest)

abbrev no_endpoint : Endpoint
no_endpoint = record { ip = []; port = 0; protocol = tcp }

abbrev endpoint_of : DataBuffer × DataBuffer → Endpoint × DataBuffer
endpoint_of (ip, port ∷ p ∷ n ∷ rest) =
    (record { ip = ip; port = port; protocol = protocol_of p n }, rest)
endpoint_of (ip, rest) = (no_endpoint, [])

abbrev take_endpoint : DataBuffer → Endpoint × DataBuffer
take_endpoint [] = (no_endpoint, [])
take_endpoint (n ∷ xs) = endpoint_of (split_at n xs)

abbrev take_endpoints : ℕ → DataBuffer → List Endpoint × DataBuffer
take_endpoints zero xs = ([], xs)
take_endpoints (suc n) xs =
    let (e, r) = take_endpoint xs in let (es, r') = take_endpoints n r in (e ∷ es, r')

abbrev pub pack_gateway : GatewayCall → DataBuffer
pack_gateway (to_server_id c s d) = 3 ∷ c ∷ s ∷ d
pack_gateway (to_server c es d) = 4 ∷ c ∷ length es.endpoints ∷ put_endpoints es.endpoints d

abbrev to_server_of : ℕ → List Endpoint × DataBuffer → GatewayCall
to_server_of c (es, d) = to_server c (record { endpoints = es }) d

abbrev parse_gateway : DataBuffer → List GatewayCall
parse_gateway (method ∷ c ∷ n ∷ rest) =
    if method == 3
    then to_server_id c n rest ∷ []
    else if method == 4
    then to_server_of c (take_endpoints n rest) ∷ []
    else []
parse_gateway _ = []

abbrev pack_client : ClientCall → DataBuffer
pack_client c = 3 ∷ c.client_id ∷ c.payload

abbrev parse_client : DataBuffer → List ClientCall
parse_client (method ∷ c ∷ d) =
    if method == 3 then record { client_id = c; payload = d } ∷ [] else []
parse_client _ = []

split-append : (xs ys : DataBuffer) → split_at (length xs) (xs ++ ys) ≡ (xs, ys)
split-append [] ys = refl
split-append (x ∷ xs) ys = rw (split-append xs ys)

take-put_protocol :
    (ip : List ℕ) (port : ℕ) (p : Protocol) (rest : DataBuffer)
    → endpoint_of (ip, port ∷ put_protocol p rest)
      ≡ (record { ip = ip; port = port; protocol = p }, rest)
take-put_protocol ip port tcp rest = refl
take-put_protocol ip port udp rest = refl
take-put_protocol ip port (other_protocol n) rest = refl

take-put_endpoint :
    (e : Endpoint) (rest : DataBuffer) → take_endpoint (put_endpoint e rest) ≡ (e, rest)
take-put_endpoint e rest =
    ap endpoint_of (split-append e.ip (e.port ∷ put_protocol e.protocol rest))
    ∙ take-put_protocol e.ip e.port e.protocol rest

take-put_endpoints :
    (es : List Endpoint) (rest : DataBuffer)
    → take_endpoints (length es) (put_endpoints es rest) ≡ (es, rest)
take-put_endpoints [] rest = refl
take-put_endpoints (e ∷ es) rest =
    rw (take-put_endpoint e (put_endpoints es rest), take-put_endpoints es rest)

pub parse-pack_gateway : (c : GatewayCall) → parse_gateway (pack_gateway c) ≡ c ∷ []
parse-pack_gateway (to_server_id c s d) = refl
parse-pack_gateway (to_server c es d) = rw (take-put_endpoints es.endpoints d)

abbrev port_sum : List Endpoint → ℕ
port_sum [] = 0
port_sum (e ∷ es) = e.port + port_sum es

abbrev pub codec : Codec
codec = record {
  pack_gateway = pack_gateway;
  pack_client = pack_client;
  parse_gateway = parse_gateway;
  parse_client = parse_client;
  endpoints_hash = λ es. port_sum es.endpoints;
  parse-pack_gateway = parse-pack_gateway;
  parse-pack_client = λ c. refl;
}
