-- ===== src/Gateway.antt =====
-- class Gateway (libs/gateway/gateway.h, libs/gateway/gateway.cpp): the objects that it holds, each
-- named by the number of its creation. The port and the manager are made when they are first asked for.
pub mod Accessors
pub mod Histories
pub mod RightServer
use mathlib.Core.Option
use aether_gateway.Prelude.{ℕ, ◌+◌, List, [], ◌∷◌, Option, none, some}

pub record Gateway : Type 0 where
  pub next_object : ℕ
  pub aether : ℕ
  pub gateway_client : ℕ
  pub gateway_cloud : ℕ
  pub server_stream_manager : Option ℕ
  pub local_port : Option ℕ

-- The constructor; the objects below `next_object` exist already.
unfoldable pub new_gateway : (aether client next_object : ℕ) → Gateway
new_gateway aether client next_object = record {
  next_object = next_object + 1;
  aether = aether;
  gateway_client = client;
  gateway_cloud = next_object;
  server_stream_manager = none;
  local_port = none;
}

unfoldable pub get_server_stream_manager : Gateway → ℕ × Gateway
get_server_stream_manager gw = elim gw.server_stream_manager [
  | some manager ↦ (manager, gw)
  | none ↦ (
    gw.next_object,
    record gw { next_object = gw.next_object + 1; server_stream_manager = some gw.next_object },
  )
]

unfoldable pub get_local_port : Gateway → ℕ × Gateway
get_local_port gw = elim gw.local_port [
  | some port ↦ (port, gw)
  | none ↦ (
    gw.next_object,
    record gw { next_object = gw.next_object + 1; local_port = some gw.next_object },
  )
]

unfoldable pub get_gateway_cloud : Gateway → ℕ × Gateway
get_gateway_cloud gw = (gw.gateway_cloud, gw)

-- The three accessors.
pub data Accessor : Type 0 where
  of_manager of_port of_cloud : Accessor

unfoldable pub access : Accessor → Gateway → ℕ × Gateway
unfolding get_server_stream_manager get_local_port get_gateway_cloud
access of_manager gw = get_server_stream_manager gw
access of_port gw = get_local_port gw
access of_cloud gw = get_gateway_cloud gw

-- The calls of a program, in order, with what each returns, and the gateway after them.
unfoldable pub accesses : List Accessor → Gateway → List (Accessor × ℕ) × Gateway
accesses [] gw = ([], gw)
accesses (a ∷ rest) gw =
    let (object, gw') = access a gw in
    let (objects, gw'') = accesses rest gw' in ((a, object) ∷ objects, gw'')
